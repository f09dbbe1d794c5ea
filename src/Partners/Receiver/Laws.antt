-- ===== src/Partners/Receiver/Laws.antt =====
-- What the endpoint for webhooks records.
use thuso_wechat_ls.Base.{
  ℕ, ◌≡◌, refl, inl, inr, Option, some, List, [], ◌∷◌, ◌++◌, String, Table, or_default, Result, ok,
  err, Kind, http_status, integrity_error, true, false, Bool-cases,
}
use thuso_wechat_ls.Base.Dict.{Dict, lookup}
use thuso_wechat_ls.Base.Json.{Value, Python}
use thuso_wechat_ls.Partners.World.{World}
use thuso_wechat_ls.Partners.Xml.{Element}
use thuso_wechat_ls.Partners.Integrations.{
  PartnerIntegration, PartnerRow, load_active_partner_by_provider_key,
}
use thuso_wechat_ls.Partners.Webhooks.{
  is_recorded, PartnerWebhookEvent, record_webhook_event, verify_webhook, webhook_operation,
  parse_webhook_payload,
}
use thuso_wechat_ls.Partners.Receiver.{
  WebhookRequest, receive_webhook, receive_from, after_verification, process, store_verified,
  reject, unprocessable,
}

module _ (py : Python) (w : World) (decrypt : String → Result String)
    (parse_qs : String → Dict (List String)) (parse_xml : String → Option Element) where
  -- One event of the provider was added, with this status and the identifier of the request, which no
  -- event of the provider had before.
  pub record Adds (config : PartnerIntegration) (r : WebhookRequest) (status : String)
      (before after : List PartnerWebhookEvent) : Type 0 where
    pub event : PartnerWebhookEvent
    pub added : after ≡ before ++ (event ∷ [])
    pub of_provider : event.provider_key ≡ config.provider_key
    pub of_domain : event.service_domain ≡ config.service_domain
    pub with_id : event.event_id ≡ lookup "x-event-id" r.headers
    pub with_status : event.verification_status ≡ status
    pub new_id : is_recorded config.provider_key (lookup "x-event-id" r.headers) before ≡ false

  -- What is left where the verification refuses the webhook: one event, marked as rejected, or none
  -- where the provider's identifier is recorded already.
  pub data Refused (config : PartnerIntegration) (r : WebhookRequest)
      (events after : List PartnerWebhookEvent) (k : Kind) : Type 0 where
    recorded :
        k ≡ http_status 401
        → Adds config r "rejected" events after
        → Refused config r events after k
    repeated :
        k ≡ integrity_error
        → is_recorded config.provider_key (lookup "x-event-id" r.headers) events ≡ true
        → after ≡ events
        → Refused config r events after k

  -- The rows after a request, by the outcome of its verification and by its answer.
  abbrev pub Records :
      WebhookRequest
      → PartnerIntegration
      → List PartnerWebhookEvent
      → Result (Unit {0})
      → Result Value × List PartnerWebhookEvent
      → Type 0
  Records r config events (ok u) (ok v, after) = Adds config r "verified" events after
  Records r config events (ok u) (err k m, after) = after ≡ events
  Records r config events (err k m) (ok v, after) = ⊥
  Records r config events (err Kind.permission_error m) (err k' m', after) =
      Refused config r events after k'
  Records r config events (err k m) (err k' m', after) = (after ≡ events) × (k' ≡ k)

  reject-Records :
      (r : WebhookRequest) (config : PartnerIntegration) (events : List PartnerWebhookEvent)
      (k : Kind) (m : String)
      → Records r config events
          (err k m)
          (reject py w decrypt parse_qs parse_xml config r k m events)
  unfolding record_webhook_event
  reject-Records r config events Kind.permission_error m =
      elim (Bool-cases (is_recorded config.provider_key (lookup "x-event-id" r.headers) events)) [
        | inl known ↦ rw known (repeated refl known refl)
        | inr free ↦ rw free (
            recorded refl (record {
              event = _;
              added = refl;
              of_provider = refl;
              of_domain = refl;
              with_id = refl;
              with_status = refl;
              new_id = free;
            }))
      ]
  reject-Records r config events k m = (refl, refl)

  unprocessable-Records :
      (r : WebhookRequest) (config : PartnerIntegration) (events : List PartnerWebhookEvent)
      (k : Kind) (m : String)
      → Records r config events (ok tt) (unprocessable py w decrypt parse_qs parse_xml k m, events)
  unprocessable-Records r config events Kind.value_error m = refl
  unprocessable-Records r config events Kind.runtime_error m = refl
  unprocessable-Records r config events k m = refl

  store_verified-Records :
      (r : WebhookRequest) (config : PartnerIntegration) (events : List PartnerWebhookEvent)
      (payload : Value) (operation : Result String)
      → Records r config events
          (ok tt)
          (store_verified py w decrypt parse_qs parse_xml config r payload operation events)
  unfolding record_webhook_event
  store_verified-Records r config events payload (ok operation) =
      elim (Bool-cases (is_recorded config.provider_key (lookup "x-event-id" r.headers) events)) [
        | inl known ↦ rw known refl
        | inr free ↦ rw free (record {
          event = _;
          added = refl;
          of_provider = refl;
          of_domain = refl;
          with_id = refl;
          with_status = refl;
          new_id = free;
        })
      ]
  store_verified-Records r config events payload (err k m) =
      unprocessable-Records r config events k m

  process-Records :
      (r : WebhookRequest) (config : PartnerIntegration) (events : List PartnerWebhookEvent)
      (payload : Result Value)
      → Records r config events
          (ok tt)
          (process py w decrypt parse_qs parse_xml config r payload events)
  process-Records r config events (ok payload) =
      store_verified-Records r config events payload
        (webhook_operation py w config payload r.operation)
  process-Records r config events (err k m) = unprocessable-Records r config events k m

  after_verification-Records :
      (r : WebhookRequest) (config : PartnerIntegration) (events : List PartnerWebhookEvent)
      (verified : Result (Unit {0}))
      → Records r config events verified
          (after_verification py w decrypt parse_qs parse_xml config r verified events)
  after_verification-Records r config events (ok u) = process-Records r config events (
      parse_webhook_payload py w parse_qs parse_xml config r.body
        (or_default (lookup "content-type" r.headers) ""))
  after_verification-Records r config events (err k m) = reject-Records r config events k m

  -- For a provider with a live integration. Where the verification accepts the webhook, an answer
  -- means that one event was added, marked as verified and with an identifier that is new, and an
  -- error that none was. Where it refuses the webhook, there is no answer: one event is added, marked
  -- as rejected, with status 401, or none where its identifier is recorded already, which is an
  -- integrity error. Where it raises anything else, that comes back and nothing is added.
  pub receive_webhook-Records :
      (partners : Table PartnerRow) (now : ℕ) (r : WebhookRequest) (config : PartnerIntegration)
      (events : List PartnerWebhookEvent)
      → load_active_partner_by_provider_key py decrypt partners r.provider_key ≡ ok (some config)
      → Records r config events
          (verify_webhook py w now config r.headers r.body)
          (receive_webhook py w decrypt parse_qs parse_xml partners now r events)
  unfolding receive_webhook
  receive_webhook-Records partners now r config events e =
      rw (e, receive_from)
        (after_verification-Records r config events
          (verify_webhook py w now config r.headers r.body))

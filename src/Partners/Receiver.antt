-- ===== src/Partners/Receiver.antt =====
-- `receive_webhook` of app/api/partner_webhooks.py: what a partner posts, from its verification to
-- the row that is recorded.
pub mod Laws
use thuso_wechat_ls.Base.{
  ℕ, Bool, true, Option, none, some, List, [], ◌∷◌, String, ◌<>◌, Table, or_default, Exec, Result,
  ok, err, Kind, raise, value_error, runtime_error, permission_error, http_status,
}
use thuso_wechat_ls.Base.Uuid.{uuid_text}
use thuso_wechat_ls.Base.Dict.{Dict, lookup}
use thuso_wechat_ls.Base.Json.{Value, boolean, str, obj, Fields, end, field, Python}
use thuso_wechat_ls.Partners.World.{World}
use thuso_wechat_ls.Partners.Xml.{Element}
use thuso_wechat_ls.Partners.Integrations.{
  PartnerIntegration, PartnerRow, load_active_partner_by_provider_key,
}
use thuso_wechat_ls.Partners.Webhooks.{
  PartnerWebhookEvent, record_webhook_event, verify_webhook, parse_webhook_payload,
  webhook_operation,
}

-- A request of a partner: the headers by their lower-case names, and the body.
pub record WebhookRequest : Type 0 where
  pub provider_key : String
  pub operation : String
  pub headers : Dict String
  pub body : String
  pub trace_id : ℕ

module _ (py : Python) (w : World) (decrypt : String → Result String)
    (parse_qs : String → Dict (List String)) (parse_xml : String → Option Element) where
  abbrev pub record_event :
      PartnerIntegration
      → WebhookRequest
      → (operation verification_status : String) → Value
      → Exec (List PartnerWebhookEvent) (Unit {0})
  record_event config r operation verification_status payload =
      record_webhook_event config.provider_key config.service_domain operation
        (uuid_text r.trace_id) (lookup "x-event-id" r.headers) verification_status payload

  -- The answer once the event is recorded; what the recording raises goes on to the caller.
  abbrev pub answered_with :
      Result Value
      → Result (Unit {0}) × List PartnerWebhookEvent
      → Result Value × List PartnerWebhookEvent
  answered_with r (ok u, events) = (r, events)
  answered_with r (err k m, events) = (err k m, events)

  abbrev pub acknowledgement : PartnerIntegration → WebhookRequest → String → Value
  acknowledgement config r operation = obj (
      field "accepted" (boolean true) (
        field "provider" (str config.provider_key) (
          field "service_domain" (str config.service_domain) (
            field "operation" (str operation)
              (field "trace_id" (str (uuid_text r.trace_id)) end)))))

  -- `except (ValueError, RuntimeError)`: the transaction is rolled back, as it is behind any other
  -- exception, which goes on to the caller.
  abbrev pub unprocessable : Kind → String → Result Value
  unprocessable Kind.value_error m = err (http_status 422) "Webhook payload could not be processed"
  unprocessable Kind.runtime_error m =
      err (http_status 422) "Webhook payload could not be processed"
  unprocessable k m = err k m

  abbrev pub store_verified :
      PartnerIntegration
      → WebhookRequest
      → Value
      → Result String
      → Exec (List PartnerWebhookEvent) Value
  store_verified config r payload (err k m) events = (unprocessable k m, events)
  store_verified config r payload (ok operation) events =
      answered_with (ok (acknowledgement config r operation))
        (record_event config r operation "verified" payload events)

  abbrev pub process :
      PartnerIntegration → WebhookRequest → Result Value → Exec (List PartnerWebhookEvent) Value
  process config r (err k m) events = (unprocessable k m, events)
  process config r (ok payload) events =
      store_verified config r payload (webhook_operation py w config payload r.operation) events

  -- `except PermissionError`
  abbrev pub reject :
      PartnerIntegration → WebhookRequest → Kind → String → Exec (List PartnerWebhookEvent) Value
  reject config r Kind.permission_error m events =
      answered_with (err (http_status 401) "Webhook verification failed")
        (record_event config r r.operation "rejected" (obj (field "error" (str m) end)) events)
  reject config r k m events = (err k m, events)

  abbrev pub after_verification :
      PartnerIntegration
      → WebhookRequest
      → Result (Unit {0})
      → Exec (List PartnerWebhookEvent) Value
  after_verification config r (err k m) events = reject config r k m events
  after_verification config r (ok u) events =
      process config r
        (parse_webhook_payload py w parse_qs parse_xml config r.body
          (or_default (lookup "content-type" r.headers) ""))
        events

  abbrev pub receive_from :
      (now : ℕ)
      → WebhookRequest
      → Result (Option PartnerIntegration)
      → Exec (List PartnerWebhookEvent) Value
  receive_from now r (err k m) events = (err k m, events)
  receive_from now r (ok none) events =
      (err (http_status 404) "Active partner integration not found", events)
  receive_from now r (ok (some config)) events =
      after_verification config r (verify_webhook py w now config r.headers r.body) events

  unfoldable pub receive_webhook :
      Table PartnerRow → (now : ℕ) → WebhookRequest → Exec (List PartnerWebhookEvent) Value
  receive_webhook partners now r =
      receive_from now r (load_active_partner_by_provider_key py decrypt partners r.provider_key)

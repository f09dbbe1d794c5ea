-- ===== src/Partners/Requests.antt =====
-- `_request` of app/integrations/universal_adapter.py: one call of a partner, with its retries.
pub mod Laws
use text.Mathlib.Text.{◌==◌ as str_eq}
use thuso_wechat_ls.Base.{
  ℕ, zero, suc, ◌-◌, ◌^◌, Bool, true, false, ◌&&◌, ◌||◌, ◌==◌, Option, none, some, List, [], ◌∷◌,
  String, ◌<>◌, if◌then◌else◌, leb, Exec, Result, ok, err, Kind, pure, raise, lift, modify, ◌>>=◌,
  ◌>>◌, runtime_error, http_error,
}
use thuso_wechat_ls.Base.Dict.{Dict, union}
use thuso_wechat_ls.Base.Json.{Python, Value, Fields, get, truthy, str_of, null}
use thuso_wechat_ls.Partners.World.{
  World, Wire, AdapterContext, AdapterResponse, Call, request_call, Reply, unreachable, broken,
  answered, Certificate,
}
use thuso_wechat_ls.Partners.Auth.{transmit}

-- `await asyncio.sleep(0.25 * (2**attempt))`
abbrev pub pause : ℕ → Exec Wire (Unit {0})
pause attempt s = (ok tt, record s { pauses = 2 ^ attempt ∷ s.pauses })

abbrev pub is_transient : ℕ → Bool
is_transient status = status == 429 || status == 502 || status == 503 || status == 504

-- What follows the loop, on the response that it ended with.
abbrev pub conclude : World → ℕ → Dict String → String → Exec Wire AdapterResponse
conclude w status headers content =
    if leb 400 status
    then raise runtime_error ("Partner API returned HTTP " <> w.decimal status)
    else pure (record { status_code = status; headers = headers; body = null; raw_text = content })

module _ (py : Python) (w : World) where
  -- One round of `for attempt in range(3)` on its reply; `again` is the rounds that are left, and
  -- none are left after the last.
  unfoldable pub round : ℕ → Option (Exec Wire AdapterResponse) → Reply → Exec Wire AdapterResponse
  round attempt none unreachable = raise runtime_error "Unable to connect to partner API"
  round attempt (some again) unreachable = pause attempt >> again
  round attempt left (broken m) = raise http_error m
  round attempt none (answered status headers content) = conclude w status headers content
  round attempt (some again) (answered status headers content) =
      if is_transient status then (pause attempt >> again) else conclude w status headers content

  -- The rounds from the one with `left` rounds after it.
  unfoldable pub attempts : ℕ → Call → Exec Wire AdapterResponse
  unfolding round transmit
  attempts zero c = transmit w c >>= round 2 none
  attempts (suc left) c = transmit w c >>= round (1 - left) (some (attempts left c))

  abbrev pub given_text : Value → Option String
  given_text v = if truthy v then some (str_of py v) else none

  -- `_build_ssl_context(ctx.secrets) or True`, for mTLS only
  unfoldable pub certificate_of : AdapterContext → Result (Option Certificate)
  certificate_of ctx =
      if str_eq (py.lower ctx.auth_scheme) "mtls"
        && (truthy (get "client_cert_pem" ctx.secrets) && truthy (get "client_key_pem" ctx.secrets))
      then elim (w.load_chain (record {
        certificate = str_of py (get "client_cert_pem" ctx.secrets);
        key = str_of py (get "client_key_pem" ctx.secrets);
        authorities = given_text (get "ca_bundle_pem" ctx.secrets);
      })) [ ok c ↦ ok (some c) | err k m ↦ err k m ]
      else ok none

  abbrev pub all_headers : AdapterContext → String → Dict String → Dict String
  all_headers ctx content_type headers =
      union
        (("Accept", "application/json, application/xml, text/xml, */*")
          ∷ ("X-NahaOS-Trace-Id", ctx.trace_id)
          ∷ ("X-NahaOS-Idempotency-Key", ctx.trace_id)
          ∷ ("Content-Type", content_type)
          ∷ [])
        headers

  unfoldable pub request :
      AdapterContext
      → (method path : String) → (body : Option String) → (headers : Dict String)
      → (content_type : String) → Exec Wire AdapterResponse
  unfolding attempts certificate_of
  request ctx method path body headers content_type = do
    certificate ← lift (certificate_of ctx)
    attempts 2 (
        request_call method (ctx.base_url <> path) body (all_headers ctx content_type headers)
          ctx.timeout_seconds certificate)

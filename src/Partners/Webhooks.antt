-- ===== src/Partners/Webhooks.antt =====
-- Webhooks of partners: app/services/partner_webhooks.py. Header names come in lower case.
pub mod Laws
use text.Mathlib.Text.{◌==◌ as str_eq}
use thuso_wechat_ls.Base.{
  ℕ, zero, suc, ◌+◌, Bool, true, false, not, ◌&&◌, ◌||◌, Option, none, some, List, [], ◌∷◌, ◌++◌,
  String, ◌<>◌, if◌then◌else◌, Exec, Result, ok, err, Kind, pure, lift, ◌>>=◌, ◌>>◌, runtime_error,
  value_error, permission_error, type_error, integrity_error,
}
use thuso_wechat_ls.Base.Int.{ℤ, pos, negsuc, ◌-ℤ◌, ltb_ℤ}
use thuso_wechat_ls.Base.Text.{contains, remove_prefix, is_ascii}
use thuso_wechat_ls.Base.Dict.{Dict, lookup}
use thuso_wechat_ls.Base.Json.{
  Value, null, boolean, number, str, arr, obj, Items, nil, cons, Fields, end, field, Python, get,
  get_else, get_field, truthy, or_else, str_of, text_field, is_obj,
}
use thuso_wechat_ls.Partners.Template.{mapped_path}
use thuso_wechat_ls.Partners.World.{World}
use thuso_wechat_ls.Partners.Integrations.{PartnerIntegration}
use thuso_wechat_ls.Partners.Xml.{Element, element_to_dict}

-- `abs(a)`
abbrev pub absolute : ℤ → ℤ
absolute (pos n) = pos n
absolute (negsuc n) = pos (suc n)

module _ (py : Python) (w : World) where
  -- `hmac.new(secret, timestamp + "\n" + body)`
  abbrev pub expected_signature : PartnerIntegration → String → String → String
  expected_signature config body timestamp =
      w.hmac_sha256 (str_of py (get "hmac_secret" config.secrets)) (timestamp <> "\n" <> body)

  unfoldable pub signature : PartnerIntegration → (body timestamp : String) → Result String
  signature config body timestamp =
      if truthy (get "hmac_secret" config.secrets)
      then ok (expected_signature config body timestamp)
      else err runtime_error "Webhook HMAC secret is missing"

  -- `int(value)` of a configured value
  abbrev pub int_text : Option ℤ → Result ℤ
  int_text none = err value_error "invalid literal for int()"
  int_text (some n) = ok n

  abbrev pub int_value : Value → Result ℤ
  int_value (number n) = ok n
  int_value (boolean b) = ok (pos (if b then 1 else 0))
  int_value (str s) = int_text (py.int_of s)
  int_value v = err type_error "int() argument must be a string or a real number"

  abbrev pub is_too_old : ℕ → ℤ → ℤ → Bool
  is_too_old now timestamp max_age = ltb_ℤ max_age (absolute (pos now -ℤ timestamp))

  -- `except ValueError`
  abbrev pub bad_timestamp : Kind → String → Result (Unit {0})
  bad_timestamp Kind.value_error m = err permission_error "Invalid webhook signature timestamp"
  bad_timestamp k m = err k m

  abbrev pub check_age : ℕ → Option ℤ → Result ℤ → Result (Unit {0})
  check_age now none max_age = err permission_error "Invalid webhook signature timestamp"
  check_age now (some timestamp) (err k m) = bad_timestamp k m
  check_age now (some timestamp) (ok max_age) =
      if is_too_old now timestamp max_age
      then err permission_error "Webhook signature timestamp is too old"
      else ok tt

  abbrev pub max_age_of : PartnerIntegration → Result ℤ
  max_age_of config =
      int_value (get_else "max_age_seconds" (number (pos 300)) config.webhook_config)

  -- `hmac.compare_digest(provided, expected)`, of texts
  abbrev pub compare_signature : String → Result String → Result (Unit {0})
  compare_signature provided (err k m) = err k m
  compare_signature provided (ok expected) =
      if is_ascii (remove_prefix provided "sha256=") && is_ascii expected
      then (if str_eq (remove_prefix provided "sha256=") expected
          then ok tt
          else err permission_error "Invalid webhook signature")
      else err type_error "comparing strings with non-ASCII characters is not supported"

  abbrev pub after_age : Result (Unit {0}) → Result (Unit {0}) → Result (Unit {0})
  after_age (err k m) rest = err k m
  after_age (ok u) rest = rest

  abbrev pub is_present : Option String → Bool
  is_present none = false
  is_present (some s) = not (str_eq s "")

  abbrev pub text_or_empty : Option String → String
  text_or_empty none = ""
  text_or_empty (some s) = s

  unfoldable pub verify_hmac :
      (now : ℕ)
      → PartnerIntegration
      → (signature_text timestamp : Option String) → (body : String) → Result (Unit {0})
  unfolding signature
  verify_hmac now config signature_text timestamp body =
      if not (is_present signature_text) || not (is_present timestamp)
      then err permission_error "Missing webhook signature headers"
      else after_age (check_age now (py.int_of (text_or_empty timestamp)) (max_age_of config)) (
          compare_signature (text_or_empty signature_text)
            (signature config body (text_or_empty timestamp)))

  -- `headers.get(name) != expected`, of a header that may be absent
  abbrev pub header_is : String → Option String → Bool
  header_is expected none = false
  header_is expected (some provided) = str_eq provided expected

  -- `headers.get(str(webhook.get(option, default)).lower())`
  abbrev pub header_of : PartnerIntegration → Dict String → String → String → Option String
  header_of config headers option default =
      lookup (py.lower (text_field py option default config.webhook_config)) headers

  abbrev pub scheme_of : PartnerIntegration → String
  scheme_of config = py.lower (text_field py "auth_scheme" config.auth_scheme config.webhook_config)

  unfoldable pub verify_webhook :
      (now : ℕ) → PartnerIntegration → (headers : Dict String) → (body : String) → Result (Unit {0})
  unfolding verify_hmac
  verify_webhook now config headers body =
      let scheme = scheme_of config in
      let expected = get "api_key" config.secrets in
      if str_eq scheme "none"
      then ok tt
      else if str_eq scheme "bearer"
      then (if truthy expected
            && header_is ("Bearer " <> str_of py expected)
                (header_of config headers "header_name" "authorization")
          then ok tt
          else err permission_error "Invalid webhook bearer credential")
      else if str_eq scheme "api-key"
      then (if truthy expected
            && header_is (str_of py expected) (header_of config headers "header_name" "x-api-key")
          then ok tt
          else err permission_error "Invalid webhook API key")
      else if str_eq scheme "hmac_sha256"
      then verify_hmac now config (header_of config headers "signature_header" "x-signature")
          (header_of config headers "timestamp_header" "x-timestamp") body
      else err permission_error ("Unsupported webhook auth scheme: " <> scheme)

  abbrev pub parsed_json : Option Value → Result Value
  parsed_json none = err value_error "Webhook JSON body is invalid"
  parsed_json (some v) = ok v

  abbrev pub parsed_xml : Option Element → Result Value
  parsed_xml none = err value_error "Webhook XML body is invalid"
  parsed_xml (some root) = ok (obj (field "xml_root" (element_to_dict root) end))

  unfoldable pub texts : List String → Items
  texts [] = nil
  texts (s ∷ l) = cons (str s) (texts l)

  -- `values[-1] if len(values) == 1 else values`
  abbrev pub one_or_all : List String → Value
  one_or_all (s ∷ []) = str s
  one_or_all l = arr (texts l)

  unfoldable pub form_fields : Dict (List String) → Fields
  unfolding texts
  form_fields [] = end
  form_fields ((key, values) ∷ d) = field key (one_or_all values) (form_fields d)

  -- `parse_qs` and the XML parser are parameters.
  unfoldable pub parse_webhook_payload :
      (parse_qs : String → Dict (List String)) (parse_xml : String → Option Element)
      → PartnerIntegration
      → (body content_type : String) → Result Value
  unfolding form_fields
  parse_webhook_payload parse_qs parse_xml config body content_type =
      let kind = config.adapter_type in
      if str_eq kind "rest_json" || str_eq kind "graphql" || contains (py.lower content_type) "json"
      then parsed_json (py.loads body)
      else if str_eq kind "form_urlencoded" || contains (py.lower content_type) "form-urlencoded"
      then ok (obj (form_fields (parse_qs body)))
      else if str_eq kind "soap_xml" || contains (py.lower content_type) "xml"
      then parsed_xml (parse_xml body)
      else ok (obj (field "raw" (str body) end))

  abbrev pub chosen_operation : Value → Result Value → Result String
  chosen_operation operation (err k m) = err k m
  chosen_operation operation (ok v) = ok (str_of py (or_else v operation))

  unfoldable pub webhook_operation :
      PartnerIntegration → Value → (default_operation : String) → Result String
  webhook_operation config payload default_operation =
      let operation = or_else (get "operation" config.webhook_config) (str default_operation) in
      let path = get "operation_path" config.webhook_config in
      if truthy path
      then chosen_operation operation (mapped_path py payload path)
      else ok (str_of py operation)

-- A row of `partner_webhook_events`.
pub record PartnerWebhookEvent : Type 0 where
  pub provider_key : String
  pub service_domain : String
  pub operation : String
  pub trace_id : String
  pub event_id : Option String
  pub verification_status : String
  pub payload : Fields

abbrev pub safe_payload : Value → Fields
safe_payload (obj fs) = fs
safe_payload v = field "data" v end

-- The unique index on `(provider_key,event_id)`, of the events that have an identifier.
abbrev pub has_event_id : String → Option String → Bool
has_event_id event_id none = false
has_event_id event_id (some other) = str_eq other event_id

unfoldable pub is_recorded : String → Option String → List PartnerWebhookEvent → Bool
is_recorded provider_key none events = false
is_recorded provider_key (some event_id) [] = false
is_recorded provider_key (some event_id) (e ∷ events) =
    str_eq e.provider_key provider_key && has_event_id event_id e.event_id
    || is_recorded provider_key (some event_id) events

unfoldable pub record_webhook_event :
    (provider_key service_domain operation trace_id : String)
    → (event_id : Option String) → (verification_status : String) → (payload : Value)
    → Exec (List PartnerWebhookEvent) (Unit {0})
unfolding is_recorded
record_webhook_event provider_key service_domain operation trace_id event_id verification_status
      payload events =
    if is_recorded provider_key event_id events
    then (err integrity_error "duplicate key value violates unique constraint", events)
    else (
      ok tt,
      events
          ++ (record {
            provider_key = provider_key;
            service_domain = service_domain;
            operation = operation;
            trace_id = trace_id;
            event_id = event_id;
            verification_status = verification_status;
            payload = safe_payload payload;
          }
              ∷ []),
    )

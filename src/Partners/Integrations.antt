-- ===== src/Partners/Integrations.antt =====
-- Partner integrations of app/services/partner_integrations.py: loading a configuration, and one
-- operation of a partner. `decrypt` is that of app/core/crypto.py.
pub mod Laws
use text.Mathlib.Text.{◌==◌ as str_eq}
use thuso_wechat_ls.Base.{
  ℕ, min, max, Bool, true, false, not, ◌&&◌, ◌||◌, Option, none, some, List, [], ◌∷◌, String, ◌<>◌,
  if◌then◌else◌, leb, Table, find_where, zoom, Exec, Result, ok, err, Kind, pure, raise, lift,
  ◌>>=◌, ◌>>◌, runtime_error, attribute_error, http_error, decode_error,
}
use thuso_wechat_ls.Base.Int.{pos}
use thuso_wechat_ls.Base.Uuid.{uuid_text}
use thuso_wechat_ls.Base.Text.{rstrip}
use thuso_wechat_ls.Base.Dict.{Dict}
use thuso_wechat_ls.Base.Json.{
  Value, null, boolean, number, str, arr, obj, Items, Fields, end, field, Python, get, get_else,
  truthy, or_else, str_of, merge, set_field,
}
use thuso_wechat_ls.Partners.Template.{json_path}
use thuso_wechat_ls.Partners.World.{
  World, Wire, AdapterContext, AdapterResponse, Call, request_call, Reply, unreachable, broken,
  answered,
}
use thuso_wechat_ls.Partners.Endpoints.{validate_endpoint}
use thuso_wechat_ls.Partners.Auth.{transmit, texts_of, extra_headers, is_null}
use thuso_wechat_ls.Partners.Registry.{adapter_for}
use thuso_wechat_ls.Partners.Sftp.{Remote, Ssh, sftp_file}
use thuso_wechat_ls.Partners.Adapters.{rest_json, form_urlencoded, graphql, soap_xml, raw_body}
use thuso_wechat_ls.Partners.Xml.{Element}

pub record PartnerIntegration : Type 0 where
  pub id : String
  pub stakeholder_name : String
  pub stakeholder_type : String
  pub service_domain : String
  pub provider_key : String
  pub environment : String
  pub enabled : Bool
  pub allow_private_network : Bool
  pub adapter_type : String
  pub base_url : String
  pub api_spec_url : Option String
  pub health_endpoint_path : Option String
  pub auth_scheme : String
  pub auth_header_name : String
  pub timeout_seconds : ℕ
  pub request_defaults : Fields
  pub operation_configs : Fields
  pub response_mappings : Fields
  pub auth_config : Fields
  pub webhook_config : Fields
  pub workflow_configs : Fields
  pub secrets : Fields
  pub last_test_status : Option String
  pub last_test_operation : Option String

-- A row of `partner_integrations`. The JSON columns may be null.
pub record PartnerRow : Type 0 where
  pub stakeholder_name : String
  pub stakeholder_type : String
  pub service_domain : String
  pub provider_key : String
  pub environment : String
  pub enabled : Bool
  pub allow_private_network : Bool
  pub adapter_type : String
  pub base_url : String
  pub api_spec_url : Option String
  pub health_endpoint_path : Option String
  pub auth_scheme : String
  pub auth_header_name : String
  pub timeout_seconds : ℕ
  pub request_defaults : Option Fields
  pub operation_configs : Option Fields
  pub response_mappings : Option Fields
  pub auth_config : Option Fields
  pub webhook_config : Option Fields
  pub workflow_configs : Option Fields
  pub secret_ciphertext : Option String
  pub last_test_status : Option String
  pub last_test_operation : Option String
  pub updated_at : ℕ

-- `row.get(key) or {}`
abbrev pub or_no_fields : Option Fields → Fields
or_no_fields none = end
or_no_fields (some fs) = fs

unfoldable pub build : ℕ → PartnerRow → Fields → PartnerIntegration
build id row secrets_map = record {
  id = uuid_text id;
  stakeholder_name = row.stakeholder_name;
  stakeholder_type = row.stakeholder_type;
  service_domain = row.service_domain;
  provider_key = row.provider_key;
  environment = row.environment;
  enabled = row.enabled;
  allow_private_network = row.allow_private_network;
  adapter_type = row.adapter_type;
  base_url = rstrip b'/' row.base_url;
  api_spec_url = row.api_spec_url;
  health_endpoint_path = row.health_endpoint_path;
  auth_scheme = row.auth_scheme;
  auth_header_name = row.auth_header_name;
  timeout_seconds = max 5 (min row.timeout_seconds 180);
  request_defaults = or_no_fields row.request_defaults;
  operation_configs = or_no_fields row.operation_configs;
  response_mappings = or_no_fields row.response_mappings;
  auth_config = or_no_fields row.auth_config;
  webhook_config = or_no_fields row.webhook_config;
  workflow_configs = or_no_fields row.workflow_configs;
  secrets = secrets_map;
  last_test_status = row.last_test_status;
  last_test_operation = row.last_test_operation;
}

-- `order by updated_at desc limit 1`
abbrev pub later : ℕ → PartnerRow → Option (ℕ × PartnerRow) → Option (ℕ × PartnerRow)
later id row none = some (id, row)
later id row (some (j, other)) =
    if leb other.updated_at row.updated_at then some (id, row) else some (j, other)

unfoldable pub newest : (ℕ → PartnerRow → Bool) → Table PartnerRow → Option (ℕ × PartnerRow)
newest p [] = none
newest p ((id, row) ∷ t) = let rest = newest p t in if p id row then later id row rest else rest

abbrev pub is_live_row : PartnerRow → Bool
is_live_row row = str_eq row.environment "production" && row.enabled

-- `and provider_key=:provider_key`, where one is given
abbrev pub has_provider : Option String → PartnerRow → Bool
has_provider none row = true
has_provider (some key) row = if str_eq key "" then true else str_eq row.provider_key key

abbrev pub is_active : String → Option String → ℕ → PartnerRow → Bool
is_active service_domain provider_key id row =
    str_eq row.service_domain service_domain && is_live_row row && has_provider provider_key row

abbrev pub is_active_provider : String → ℕ → PartnerRow → Bool
is_active_provider provider_key id row = str_eq row.provider_key provider_key && is_live_row row

module _ (py : Python) (decrypt : String → Result String) where
  -- The plain text is the JSON object that was stored.
  abbrev pub secrets_object : Option Value → Result Fields
  secrets_object none = err decode_error "Expecting value"
  secrets_object (some (obj fs)) = ok fs
  secrets_object (some v) = err attribute_error "object has no attribute 'get'"

  abbrev pub decode_secrets : Result String → Result Fields
  decode_secrets (err k m) = err k m
  decode_secrets (ok plain) = secrets_object (py.loads plain)

  abbrev pub secrets_of : Option String → Result Fields
  secrets_of none = ok end
  secrets_of (some ciphertext) =
      if str_eq ciphertext "" then ok end else decode_secrets (decrypt ciphertext)

  abbrev pub build_from : ℕ → PartnerRow → Result Fields → Result (Option PartnerIntegration)
  build_from id row (err k m) = err k m
  build_from id row (ok fs) = ok (some (build id row fs))

  abbrev pub build_row : Option (ℕ × PartnerRow) → Result (Option PartnerIntegration)
  build_row none = ok none
  build_row (some (id, row)) = build_from id row (secrets_of row.secret_ciphertext)

  unfoldable pub load_active_partner :
      Table PartnerRow
      → (service_domain : String) → (provider_key : Option String)
      → Result (Option PartnerIntegration)
  unfolding newest build
  load_active_partner partners service_domain provider_key =
      build_row (newest (is_active service_domain provider_key) partners)

  unfoldable pub load_active_partner_by_provider_key :
      Table PartnerRow → (provider_key : String) → Result (Option PartnerIntegration)
  unfolding build
  load_active_partner_by_provider_key partners provider_key =
      build_row (find_where (is_active_provider provider_key) partners)

-- `auth_headers`
module _ (py : Python) (base64 : String → String) where
  abbrev pub missing_credential : Result (Dict String)
  missing_credential = err runtime_error "partner API credential is missing"

  unfoldable pub auth_headers : PartnerIntegration → Result (Dict String)
  unfolding texts_of
  auth_headers config =
      let scheme = py.lower config.auth_scheme in
      let key = get "api_key" config.secrets in
      if str_eq scheme "none"
      then ok []
      else if str_eq scheme "bearer"
      then (if truthy key
          then ok (("Authorization", "Bearer " <> str_of py key) ∷ [])
          else missing_credential)
      else if str_eq scheme "api-key"
      then (if truthy key
          then ok ((config.auth_header_name, str_of py key) ∷ [])
          else missing_credential)
      else if str_eq scheme "basic"
      then (if not (truthy key) || is_null (get "api_secret" config.secrets)
          then err runtime_error "partner basic-auth credentials are missing"
          else ok (
              (
                "Authorization",
                "Basic "
                    <> base64 (str_of py key <> ":" <> str_of py (get "api_secret" config.secrets)),
              )
              ∷ []))
      else if str_eq scheme "custom"
      then extra_headers py (or_else (get "extra_headers" config.secrets) (obj end))
      else err runtime_error ("unsupported auth scheme: " <> config.auth_scheme)

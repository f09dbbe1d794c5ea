-- ===== src/Econet/Config.antt =====
-- The configuration of app/services/econet_integration.py: how it is checked, saved and loaded.
use text.Mathlib.Text.{◌==◌ as str_eq}
use thuso_wechat_ls.Base.{
  ℕ, Bool, not, ◌&&◌, ◌||◌, Option, none, some, List, [], ◌∷◌, String, ◌<>◌, if◌then◌else◌, max,
  min, Exec, Result, ok, err, pure, lift, ◌>>=◌, value_error, runtime_error,
}
use thuso_wechat_ls.Base.Uuid.{uuid_text}
use thuso_wechat_ls.Base.Text.{rstrip}
use thuso_wechat_ls.Base.Dict.{Dict}
use thuso_wechat_ls.Base.Json.{
  Value, str, obj, Fields, end, field, Python, get, truthy, or_else, str_of,
}
use thuso_wechat_ls.Access.Crypto.{Ciphers, cipher_key, decrypt}
use thuso_wechat_ls.Partners.World.{World, Url, Address}
use thuso_wechat_ls.Partners.Endpoints.{
  check_addresses, any_internal, port_of, is_production, is_relative,
}
use thuso_wechat_ls.Partners.Auth.{is_null, texts_of}
use thuso_wechat_ls.Partners.Integrations.{secrets_of}

pub record EconetIntegration : Type 0 where
  pub id : String
  pub environment : String
  pub enabled : Bool
  pub allow_private_network : Bool
  pub base_url : String
  pub chat_endpoint_path : String
  pub health_endpoint_path : Option String
  pub auth_scheme : String
  pub auth_header_name : String
  pub model : String
  pub timeout_seconds : ℕ
  pub request_template : Fields
  pub response_mapping : Fields
  pub secrets : Fields
  pub last_test_status : Option String
  pub last_test_kind : Option String
  pub last_test_at : Option ℕ

-- The row of `integration_configs` for the provider `econet-ai` and the environment `production`;
-- the table has one at most.
pub record IntegrationConfig : Type 0 where
  pub id : ℕ
  pub enabled : Bool
  pub allow_private_network : Bool
  pub base_url : String
  pub chat_endpoint_path : String
  pub health_endpoint_path : Option String
  pub auth_scheme : String
  pub auth_header_name : String
  pub model : String
  pub timeout_seconds : ℕ
  pub request_template : Fields
  pub response_mapping : Fields
  pub secret_ciphertext : Option String
  pub last_test_status : Option String
  pub last_test_kind : Option String
  pub last_test_at : Option ℕ
  pub last_test_error : Option String
  pub version : ℕ
  pub updated_by : String

-- The body of the route that saves.
pub record EconetConfigIn : Type 0 where
  pub base_url : String
  pub chat_endpoint_path : String
  pub health_endpoint_path : Option String
  pub auth_scheme : String
  pub auth_header_name : String
  pub model : String
  pub timeout_seconds : ℕ
  pub api_key : Option String
  pub api_secret : Option String
  pub extra_headers : Option Fields
  pub allow_private_network : Bool
  pub request_template : Fields
  pub response_mapping : Fields

-- The process: the key of the secrets, and `json.dumps` with the short separators.
pub record EconetEnv : Type 0 where
  pub py : Python
  pub w : World
  pub ciphers : Ciphers
  pub secrets_encryption_key : String
  pub compact : Value → String

abbrev pub default_request_template : Fields
default_request_template =
    field "model" (str "{{model}}")
      (field "messages" (str "{{messages}}") (field "metadata" (str "{{metadata}}") end))

abbrev pub default_response_mapping : Fields
default_response_mapping = field "content_path" (str "choices.0.message.content") (
    field "model_path" (str "model") (
      field "input_units_path" (str "usage.prompt_tokens")
        (field "output_units_path" (str "usage.completion_tokens") end)))

-- `fields or default`
abbrev pub or_fields : Fields → Fields → Fields
or_fields end default = default
or_fields (field k v fs) default = field k v fs

-- `text or default`
abbrev pub or_text : String → String → String
or_text s default = if str_eq s "" then default else s

module _ (env : EconetEnv) where
  abbrev pub check_econet : Option (List Address) → Result (Unit {0})
  check_econet none = err value_error "Econet hostname could not be resolved"
  check_econet (some l) = check_addresses "Econet endpoint resolves to a private/reserved network" l

  abbrev pub check_econet_url : Bool → Result Url → Result (Unit {0})
  check_econet_url allow_private_network (err k m) = err k m
  check_econet_url allow_private_network (ok u) =
      if not (str_eq u.scheme "https" || str_eq u.scheme "http")
      then err value_error "Econet base URL must use HTTP or HTTPS"
      else if str_eq u.host ""
      then err value_error "Econet base URL must include a hostname"
      else if str_eq u.scheme "http" && is_production env.w env.py
      then err value_error "Production Econet endpoints must use HTTPS"
      else if allow_private_network
      then ok tt
      else check_econet (env.w.resolve u.host (port_of u))

  unfoldable pub validate_econet_endpoint : String → Bool → Result (Unit {0})
  unfolding any_internal
  validate_econet_endpoint base_url allow_private_network =
      check_econet_url allow_private_network (env.w.parse_url base_url)

  unfoldable pub econet_path : String → String → Result String
  econet_path path default =
      let value = env.py.strip (or_text path default) in
      if is_relative value
      then err value_error "Endpoint paths must be absolute paths without '..'"
      else ok value

  -- `_normalise_path(path, "/health") if path else None`
  abbrev pub health_path_of : Option String → Result (Option String)
  health_path_of none = ok none
  health_path_of (some path) =
      if str_eq path ""
      then ok none
      else elim (econet_path path "/health") [ ok p ↦ ok (some p) | err k m ↦ err k m ]

  abbrev pub custom_headers : Value → Result (Dict String)
  custom_headers (obj fs) = ok (texts_of env.py fs)
  custom_headers v = err runtime_error "Custom headers are invalid"

  unfoldable pub econet_auth_headers : EconetIntegration → Result (Dict String)
  unfolding texts_of
  econet_auth_headers config =
      let scheme = env.py.lower config.auth_scheme in
      let key = get "api_key" config.secrets in
      if str_eq scheme "none"
      then ok []
      else if str_eq scheme "bearer"
      then (if truthy key
          then ok (("Authorization", "Bearer " <> str_of env.py key) ∷ [])
          else err runtime_error "Econet API key is missing")
      else if str_eq scheme "api-key"
      then (if truthy key
          then ok ((config.auth_header_name, str_of env.py key) ∷ [])
          else err runtime_error "Econet API key is missing")
      else if str_eq scheme "basic"
      then (if not (truthy key) || is_null (get "api_secret" config.secrets)
          then err runtime_error "Econet basic-auth credentials are missing"
          else ok (
              (
                "Authorization",
                "Basic "
                    <> env.w.base64 (
                        str_of env.py key
                        <> ":"
                        <> str_of env.py (get "api_secret" config.secrets)),
              )
              ∷ []))
      else if str_eq scheme "custom"
      then custom_headers (or_else (get "extra_headers" config.secrets) (obj end))
      else err runtime_error ("Unsupported Econet auth scheme: " <> config.auth_scheme)

  -- The row with its paths.
  abbrev pub integration_of :
      IntegrationConfig → Fields → String → Option String → EconetIntegration
  integration_of row secrets chat_path health_path = record {
    id = uuid_text row.id;
    environment = "production";
    enabled = row.enabled;
    allow_private_network = row.allow_private_network;
    base_url = rstrip b'/' row.base_url;
    chat_endpoint_path = chat_path;
    health_endpoint_path = health_path;
    auth_scheme = row.auth_scheme;
    auth_header_name = row.auth_header_name;
    model = row.model;
    timeout_seconds = max 5 (min row.timeout_seconds 180);
    request_template = or_fields row.request_template default_request_template;
    response_mapping = or_fields row.response_mapping default_response_mapping;
    secrets = secrets;
    last_test_status = row.last_test_status;
    last_test_kind = row.last_test_kind;
    last_test_at = row.last_test_at;
  }

  unfoldable pub build_econet_config {ℓ} :
      {S : Type ℓ} → IntegrationConfig → Fields → Exec S EconetIntegration
  unfolding econet_path
  build_econet_config row secrets = do
    chat_path ← lift (econet_path row.chat_endpoint_path "/chat/completions")
    health_path ← lift (health_path_of row.health_endpoint_path)
    pure (integration_of row secrets chat_path health_path)

  abbrev pub decrypt_secret : String → Result String
  decrypt_secret ciphertext = elim (cipher_key env.ciphers env.secrets_encryption_key) [
    | ok key ↦ decrypt env.ciphers key ciphertext
    | err k m ↦ err k m
  ]

  abbrev pub load_row {ℓ} :
      {S : Type ℓ} → Option IntegrationConfig → Exec S (Option (EconetIntegration × Fields))
  load_row none = pure none
  load_row (some row) = do
    secrets ← lift (secrets_of env.py decrypt_secret row.secret_ciphertext)
    config ← build_econet_config row secrets
    pure (some (config, secrets))

  unfoldable pub get_saved_econet_config :
      Exec (Option IntegrationConfig) (Option (EconetIntegration × Fields))
  unfolding build_econet_config
  get_saved_econet_config s = load_row s s

  -- `where provider='econet-ai' and environment='production' and enabled=true`
  abbrev pub enabled_row : Option IntegrationConfig → Option IntegrationConfig
  enabled_row none = none
  enabled_row (some row) = if row.enabled then some row else none

  unfoldable pub load_active_econet_config :
      Exec (Option IntegrationConfig) (Option (EconetIntegration × Fields))
  unfolding build_econet_config
  load_active_econet_config s = load_row (enabled_row s) s

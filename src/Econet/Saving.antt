-- ===== src/Econet/Saving.antt =====
-- `save_econet_config` of app/services/econet_integration.py. The loop over the set of the secret
-- fields takes them in one order.
use text.Mathlib.Text.{◌==◌ as str_eq}
use thuso_wechat_ls.Base.{
  ℕ, zero, suc, ◌+◌, false, ◌||◌, Option, none, some, String, if◌then◌else◌, Exec, ok, lift, ◌>>=◌,
  ◌>>◌,
}
use thuso_wechat_ls.Base.Text.{rstrip}
use thuso_wechat_ls.Base.Json.{str, obj, Fields, end, field, set_field}
use thuso_wechat_ls.Access.Crypto.{cipher_key, encrypt}
use thuso_wechat_ls.Econet.Config.{
  EconetIntegration, IntegrationConfig, EconetConfigIn, EconetEnv, default_request_template,
  default_response_mapping, or_fields, or_text, validate_econet_endpoint, econet_path,
  health_path_of, get_saved_econet_config,
}

-- `secrets_map.pop(key, None)`
unfoldable pub drop_field : String → Fields → Fields
drop_field key end = end
drop_field key (field k v fs) = if str_eq key k then fs else field k v (drop_field key fs)

abbrev pub set_text : String → Option String → Fields → Fields
set_text key none fs = fs
set_text key (some s) fs = if str_eq s "" then fs else set_field key (str s) fs

abbrev pub set_headers : Option Fields → Fields → Fields
set_headers none fs = fs
set_headers (some headers) fs = set_field "extra_headers" (obj headers) fs

-- `for field in SECRET_FIELDS`
abbrev pub given_secrets : EconetConfigIn → Fields → Fields
given_secrets payload fs =
    set_headers payload.extra_headers
      (set_text "api_secret" payload.api_secret (set_text "api_key" payload.api_key fs))

abbrev pub drop_headers : String → Fields → Fields
drop_headers scheme fs = if str_eq scheme "custom" then fs else drop_field "extra_headers" fs

abbrev pub drop_credentials : String → Fields → Fields
drop_credentials scheme fs =
    if str_eq scheme "none" then drop_field "api_secret" (drop_field "api_key" fs) else fs

abbrev pub drop_api_secret : String → Fields → Fields
drop_api_secret scheme fs =
    if str_eq scheme "bearer" || str_eq scheme "api-key" then drop_field "api_secret" fs else fs

-- The secrets that the scheme of the payload keeps.
unfoldable pub kept_secrets : EconetConfigIn → Fields → Fields
unfolding drop_field
kept_secrets payload current = drop_api_secret payload.auth_scheme (
    drop_credentials payload.auth_scheme
      (drop_headers payload.auth_scheme (given_secrets payload current)))

-- `int(payload.get("timeout_seconds") or 60)`
abbrev pub or_sixty : ℕ → ℕ
or_sixty zero = 60
or_sixty (suc n) = suc n

-- The secrets of the configuration that was saved before.
abbrev pub current_secrets : Option (EconetIntegration × Fields) → Fields
current_secrets none = end
current_secrets (some (config, secrets)) = secrets

-- The identifier and the version that the row gets.
abbrev pub row_id : ℕ → Option IntegrationConfig → ℕ
row_id new_id none = new_id
row_id new_id (some row) = row.id

abbrev pub row_version : Option IntegrationConfig → ℕ
row_version none = 1
row_version (some row) = row.version + 1

module _ (env : EconetEnv) where
  abbrev pub ciphertext_of : (key nonce : String) → Fields → Option String
  ciphertext_of key nonce end = none
  ciphertext_of key nonce (field k v fs) =
      some (encrypt env.ciphers key nonce (env.compact (obj (field k v fs))))

  -- The `update`, or the `insert` where there is no row: the integration is disabled, and its test
  -- is forgotten.
  unfoldable pub write_econet :
      (new_id : ℕ) (admin_id : String)
      → EconetConfigIn
      → (chat_path : String) (health_path secret_ciphertext : Option String)
      → Exec (Option IntegrationConfig) ℕ
  write_econet new_id admin_id payload chat_path health_path secret_ciphertext s = (
    ok (row_id new_id s),
    some (record {
      id = row_id new_id s;
      enabled = false;
      allow_private_network = payload.allow_private_network;
      base_url = rstrip b'/' payload.base_url;
      chat_endpoint_path = chat_path;
      health_endpoint_path = health_path;
      auth_scheme = payload.auth_scheme;
      auth_header_name = or_text payload.auth_header_name "Authorization";
      model = or_text payload.model "default";
      timeout_seconds = or_sixty payload.timeout_seconds;
      request_template = or_fields payload.request_template default_request_template;
      response_mapping = or_fields payload.response_mapping default_response_mapping;
      secret_ciphertext = secret_ciphertext;
      last_test_status = none;
      last_test_kind = none;
      last_test_at = none;
      last_test_error = none;
      version = row_version s;
      updated_by = admin_id;
    }),
  )

  -- What follows the reading of the current configuration.
  unfoldable pub save_over :
      (new_id : ℕ) (nonce admin_id : String)
      → EconetConfigIn
      → Option (EconetIntegration × Fields)
      → Exec (Option IntegrationConfig) ℕ
  unfolding write_econet
  save_over new_id nonce admin_id payload current = do
    key ← lift (cipher_key env.ciphers env.secrets_encryption_key)
    chat_path ← lift (econet_path env payload.chat_endpoint_path "/chat/completions")
    health_path ← lift (health_path_of env payload.health_endpoint_path)
    write_econet new_id admin_id payload chat_path health_path
        (ciphertext_of key nonce (kept_secrets payload (current_secrets current)))

  -- `new_id` is the identifier that an inserted row gets, `nonce` is random.
  unfoldable pub save_econet_config :
      (new_id : ℕ) (nonce admin_id : String) → EconetConfigIn → Exec (Option IntegrationConfig) ℕ
  unfolding get_saved_econet_config save_over
  save_econet_config new_id nonce admin_id payload =
      lift (validate_econet_endpoint env payload.base_url payload.allow_private_network)
      >> (get_saved_econet_config env >>= save_over new_id nonce admin_id payload)

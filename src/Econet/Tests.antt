-- ===== src/Econet/Tests.antt =====
-- Runs of the integration of Econet.
use thuso_wechat_ls.Base.{◌≡◌, refl, true, false, none, some, List, [], ◌∷◌, ◌<>◌, ok}
use thuso_wechat_ls.Base.Int.{pos}
use thuso_wechat_ls.Base.Json.{str, obj, end, field, Python}
use thuso_wechat_ls.Access.Crypto.{Ciphers, cipher_key}
use thuso_wechat_ls.Partners.World.{World, Wire, answered}
use thuso_wechat_ls.Econet.Config.{
  IntegrationConfig, EconetConfigIn, EconetEnv, default_request_template, get_saved_econet_config,
  validate_econet_endpoint, econet_auth_headers,
}
use thuso_wechat_ls.Base.Text.{split, rstrip}
use thuso_wechat_ls.Econet.Saving.{save_econet_config, kept_secrets}
use thuso_wechat_ls.Econet.Client.{test_econet_config}
use thuso_wechat_ls.Econet.Console.{put_econet, test_econet, activate_econet}
use thuso_wechat_ls.Econet.Console.Laws.{
  Request, save, test, activate, perform, perform_all, has_version, enabled_tested,
}

abbrev plain : Python
plain = record {
  repr = λ v. "value";
  int_of = λ s. some (pos 0);
  lower = λ s. s;
  upper = λ s. s;
  strip = λ s. s;
  replace = λ s old new. s;
  dumps = λ v. "{}";
  loads = λ s. some (obj (field "text" (str "OK") end));
}

abbrev network : World
network = record {
  parse_url = λ s. ok (record { scheme = "https"; host = "ai.econet.ls"; port = none });
  resolve = λ host port. some [];
  app_env = "production";
  reply = λ calls c. answered 200 [] "ok";
  time = λ calls. 100;
  decimal = λ n. "100";
  base64 = λ s. s;
  hmac_sha256 = λ key message. key <> message;
  load_chain = λ c. ok c;
  urlencode = λ d. "";
}

abbrev ciphers : Ciphers
ciphers = record {
  encode = λ s. s;
  decode = λ s. some s;
  seal = λ key nonce plaintext. plaintext;
  unseal = λ key nonce ciphertext. some ciphertext;
}

abbrev env : EconetEnv
env = record {
  py = plain;
  w = network;
  ciphers = ciphers;
  secrets_encryption_key = "0123456789abcdef0123456789abcdef";
  compact = λ v. "{}";
}

abbrev wanted : EconetConfigIn
wanted = record {
  base_url = "https://ai.econet.ls";
  chat_endpoint_path = "/chat";
  health_endpoint_path = none;
  auth_scheme = "none";
  auth_header_name = "Authorization";
  model = "small";
  timeout_seconds = 60;
  api_key = none;
  api_secret = none;
  extra_headers = none;
  allow_private_network = false;
  request_template = end;
  response_mapping = field "content_path" (str "text") end;
}

abbrev live : IntegrationConfig
live = record {
  id = 1;
  enabled = true;
  allow_private_network = false;
  base_url = "https://ai.econet.ls";
  chat_endpoint_path = "/chat";
  health_endpoint_path = none;
  auth_scheme = "none";
  auth_header_name = "Authorization";
  model = "small";
  timeout_seconds = 60;
  request_template = default_request_template;
  response_mapping = field "content_path" (str "text") end;
  secret_ciphertext = none;
  last_test_status = some "passed";
  last_test_kind = some "chat";
  last_test_at = some 5;
  last_test_error = none;
  version = 1;
  updated_by = "admin";
}

abbrev idle : Wire
idle = record { calls = []; pauses = []; token_cache = [] }

abbrev requests : List Request
requests = save 1 "n" "admin" wanted ∷ test 5 true "admin" ∷ activate "admin" ∷ []

enabled_tested_example :
    has_version live.version
      (perform_all env requests (record { saved = none; audits = []; wire = idle }, [])).1
    ≡ true
unfolding perform_all perform activate_econet get_saved_econet_config test_econet put_econet
    save_econet_config validate_econet_endpoint cipher_key kept_secrets test_econet_config
    econet_auth_headers split rstrip
enabled_tested_example = enabled_tested env requests [] idle live refl refl

-- ===== src/Partners/Tests.antt =====
-- Runs of the partner integrations.
use text.Mathlib.Text.{◌==◌ as str_eq}
use thuso_wechat_ls.Base.{
  ℕ, ◌+◌, ◌-◌, ◌≡◌, ◌≢◌, refl, sym, ap, ◌∙◌, Bool, true, false, Option, none, some, List, [], ◌∷◌,
  String, ◌<>◌, if◌then◌else◌, Exec, Result, ok, err, Kind, runtime_error, ltb, find_where, Table,
  arith,
}
use thuso_wechat_ls.Base.Int.{ℤ, pos, ltb_ℤ}
use thuso_wechat_ls.Base.Dict.{Dict, lookup}
use thuso_wechat_ls.Base.Text.{split, is_ascii}
use thuso_wechat_ls.Base.Json.{
  Value, null, str, number, arr, obj, nil, cons, Fields, end, field, Python, get_field,
}
use thuso_wechat_ls.Partners.Template.{template_value, json_path}
use thuso_wechat_ls.Partners.Template.Laws.{json_path-template_value}
use thuso_wechat_ls.Partners.World.{
  World, Wire, AdapterContext, Url, Address, Call, request_call, Reply, unreachable, answered,
}
use thuso_wechat_ls.Partners.Endpoints.{validate_endpoint, is_production}
use thuso_wechat_ls.Partners.Endpoints.Laws.{IsPublic, validate_endpoint-IsPublic}
use thuso_wechat_ls.Partners.Auth.{oauth_token, bearer}
use thuso_wechat_ls.Partners.Auth.Laws.{IsCached, oauth_token_reused}
use thuso_wechat_ls.Partners.Requests.{request, all_headers, certificate_of}
use thuso_wechat_ls.Partners.Requests.Laws.{IsBounded, request-IsBounded}
use thuso_wechat_ls.Partners.Sftp.{Ssh, Remote, open_client, transfer}
use thuso_wechat_ls.Partners.Sftp.Laws.{CleansUp, transfer-CleansUp}
use thuso_wechat_ls.Partners.Integrations.{
  PartnerIntegration, PartnerRow, build, load_active_partner_by_provider_key,
}
use thuso_wechat_ls.Partners.Workflows.{run_workflow}
use thuso_wechat_ls.Partners.Workflows.Laws.{Calls, logged, run_workflow-Calls}
use thuso_wechat_ls.Partners.Webhooks.{verify_webhook}
use thuso_wechat_ls.Partners.Webhooks.Laws.{Accepted, verify_webhook-Accepted}
use thuso_wechat_ls.Partners.Receiver.{WebhookRequest, receive_webhook}
use thuso_wechat_ls.Partners.Receiver.Laws.{Records, receive_webhook-Records}

-- The token that the OAuth2 server gives.
abbrev token_fields : Fields
token_fields = field "access_token" (str "abc") (field "expires_in" (number (pos 3600)) end)

-- Texts as they are, and one JSON text.
abbrev plain : Python
plain = record {
  repr = λ v. "value";
  int_of = λ s. if str_eq s "100" then some (pos 100) else none;
  lower = λ s. s;
  upper = λ s. s;
  strip = λ s. s;
  replace = λ s old new. s;
  dumps = λ v. "{}";
  loads = λ s. if str_eq s "token" then some (obj token_fields) else some (obj end);
}

abbrev public_address : Address
public_address = record {
  is_private = false;
  is_loopback = false;
  is_link_local = false;
  is_reserved = false;
  is_multicast = false;
}

abbrev partner_url : Url
partner_url = record { scheme = "https"; host = "api.partner.ls"; port = none }

-- A network that fails once and then answers.
abbrev reply_to : List Call → Call → Reply
reply_to [] c = unreachable
reply_to (d ∷ calls) c = answered 200 [] "token"

abbrev network : World
network = record {
  parse_url = λ s. ok partner_url;
  resolve = λ host port. some (public_address ∷ []);
  app_env = "production";
  reply = reply_to;
  time = λ calls. 100;
  decimal = λ n. "100";
  base64 = λ s. s;
  hmac_sha256 = λ key message. key <> message;
  load_chain = λ c. ok c;
  urlencode = λ d. "";
}

abbrev context : AdapterContext
context = record {
  base_url = "https://api.partner.ls";
  operation = "quote";
  trace_id = "trace";
  timeout_seconds = 30;
  request_defaults = end;
  operation_config = end;
  auth_scheme = "bearer";
  auth_config = field "token_url" (str "https://id.partner.ls/token") end;
  secrets = field "api_key" (str "key") end;
  allow_private_network = false;
}

abbrev fresh_wire : Wire
fresh_wire = record { calls = []; pauses = []; token_cache = [] }

abbrev used_wire : Wire
used_wire = record fresh_wire {
  calls = request_call "GET" "https://api.partner.ls/up" none [] 30 none ∷ [];
}

validate_endpoint-IsPublic_example :
    IsPublic network partner_url
    × (partner_url.host ≢ "")
    × (partner_url.scheme ≡ "http" → is_production network plain ≡ false)
unfolding validate_endpoint
validate_endpoint-IsPublic_example =
    validate_endpoint-IsPublic network plain "https://api.partner.ls" partner_url refl refl

request-IsBounded_example :
    IsBounded 3
      (request_call "POST"
        ("https://api.partner.ls" <> "/quote")
        (some "{}")
        (all_headers plain network context "application/json" [])
        30
        none)
      fresh_wire
      (request plain network context "POST" "/quote" (some "{}") [] "application/json" fresh_wire)
unfolding certificate_of
request-IsBounded_example =
    request-IsBounded plain network context "POST" "/quote" (some "{}") [] "application/json"
      fresh_wire none refl

-- The connection after the token was fetched.
abbrev wire_with_token : Wire
wire_with_token = (oauth_token plain network context "partner" 100 used_wire).1

oauth_token_reused_example :
    (c : IsCached plain network context "partner" (bearer plain network "abc") wire_with_token)
    × ((later : ℕ)
        → ltb_ℤ (pos (later + 30)) c.expires ≡ true
        → oauth_token plain network context "partner" later wire_with_token
          ≡ (ok (bearer plain network "abc"), wire_with_token))
unfolding oauth_token lookup get_field
oauth_token_reused_example =
    oauth_token_reused plain network context "partner" 100 (bearer plain network "abc") used_wire
      wire_with_token refl

abbrev variables : Fields
variables = field "payload" (obj (field "amount" (number (pos 5)) end)) end

json_path-template_value_example :
    json_path plain (obj variables) (some "payload.amount")
    ≡ ok (template_value "payload.amount" variables)
unfolding template_value split get_field
json_path-template_value_example =
    json_path-template_value plain "payload.amount" variables (λ e. absurd (cc e))
      (λ e. absurd (cc e))

-- A server that lets everything through.
abbrev ssh : Ssh
ssh = record {
  urlparse =
      λ s. record { scheme = "sftp"; hostname = "files.partner.ls"; username = null; port = none };
  load_host_keys = λ s. ok tt;
  from_private_key = λ loader pem passphrase. ok pem;
  connect = λ host port username credential timeout. ok tt;
  may_write = λ s. ok tt;
  list_dir = λ path files. ok nil;
  bytes_of = λ v. ok "";
}

abbrev sftp_context : AdapterContext
sftp_context = record context { secrets = field "sftp_password" (str "secret") end }

abbrev server : Remote
server = record { files = []; connections = 0; temporary_files = 0 }

transfer-CleansUp_example :
    CleansUp plain network ssh server
      (open_client plain network ssh sftp_context
        (ssh.urlparse "sftp://files.partner.ls")
        "nahaos"
        server)
      (transfer plain network ssh sftp_context
        (ssh.urlparse "sftp://files.partner.ls")
        "nahaos"
        "upload"
        "/in/a.csv"
        (field "content" (str "1;2") end)
        server)
transfer-CleansUp_example =
    transfer-CleansUp plain network ssh sftp_context (ssh.urlparse "sftp://files.partner.ls")
      "nahaos" "upload" "/in/a.csv" (field "content" (str "1;2") end) server

-- A partner that holds stock: it reserves, it releases, and it declines to pay.
abbrev stock : String → Fields → Exec ℕ (Fields × Bool)
stock operation fs n =
    if str_eq operation "reserve"
    then (ok (end, true), n + 1)
    else if str_eq operation "release"
    then (ok (end, true), n - 1)
    else (err runtime_error "declined", n)

abbrev reserve : Fields
reserve = field "operation" (str "reserve") (field "compensation_operation" (str "release") end)

abbrev pay : Fields
pay = field "operation" (str "pay") end

abbrev order : Value
order = arr (cons (obj reserve) (cons (obj pay) nil))

run_workflow-Calls_example :
    Calls plain "trace" end stock
      (cons (obj reserve) (cons (obj pay) nil))
      (run_workflow plain "trace" end (logged stock) "order" order (5, []))
run_workflow-Calls_example =
    run_workflow-Calls plain "trace" end stock "order" (obj reserve) (cons (obj pay) nil) 5

abbrev partner_row : PartnerRow
partner_row = record {
  stakeholder_name = "Bank";
  stakeholder_type = "bank";
  service_domain = "payments";
  provider_key = "bank";
  environment = "production";
  enabled = true;
  allow_private_network = false;
  adapter_type = "rest_json";
  base_url = "https://api.partner.ls";
  api_spec_url = none;
  health_endpoint_path = none;
  auth_scheme = "hmac_sha256";
  auth_header_name = "";
  timeout_seconds = 30;
  request_defaults = none;
  operation_configs = none;
  response_mappings = none;
  auth_config = none;
  webhook_config = none;
  workflow_configs = none;
  secret_ciphertext = none;
  last_test_status = none;
  last_test_operation = none;
  updated_at = 0;
}

abbrev bank : PartnerIntegration
bank = build 7 partner_row (field "hmac_secret" (str "key") end)

abbrev signed_headers : Dict String
signed_headers = ("x-timestamp", "100") ∷ ("x-signature", "sha256=key100\nbody") ∷ []

verify_webhook-Accepted_example : Accepted plain network 150 bank signed_headers "body"
unfolding is_ascii verify_webhook get_field build lookup thuso_wechat_ls.Base.Int.◌-ℤ◌
verify_webhook-Accepted_example =
    verify_webhook-Accepted plain network 150 bank signed_headers "body" refl

abbrev hook : WebhookRequest
hook = record {
  provider_key = "bank";
  operation = "paid";
  headers = [];
  body = "body";
  trace_id = 9;
}

receive_webhook-Records_example :
    Records plain network
      (λ s. ok s)
      (λ s. [])
      (λ s. none)
      hook
      (build 7 partner_row end)
      []
      (verify_webhook plain network 150 (build 7 partner_row end) hook.headers hook.body)
      (receive_webhook plain network
        (λ s. ok s)
        (λ s. [])
        (λ s. none)
        ((7, partner_row) ∷ [])
        150
        hook
        [])
unfolding load_active_partner_by_provider_key find_where
receive_webhook-Records_example =
    receive_webhook-Records plain network (λ s. ok s) (λ s. []) (λ s. none) ((7, partner_row) ∷ [])
      150 hook (build 7 partner_row end) [] refl

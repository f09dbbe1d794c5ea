-- ===== src/Partners/Auth.antt =====
-- `_AuthBuilder.headers` of app/integrations/universal_adapter.py: the credentials of a call, with
-- the cache of OAuth2 tokens.
pub mod Laws
use text.Mathlib.Text.{◌==◌ as str_eq}
use thuso_wechat_ls.Base.{
  ℕ, ◌+◌, Bool, true, false, not, ◌&&◌, ◌||◌, Option, none, some, List, [], ◌∷◌, String, ◌<>◌,
  if◌then◌else◌, leb, Exec, Result, ok, err, Kind, pure, raise, lift, ◌>>=◌, ◌>>◌, runtime_error,
  attribute_error, http_error, decode_error, type_error, value_error,
}
use thuso_wechat_ls.Base.Int.{ℤ, pos, ◌+ℤ◌, ltb_ℤ}
use thuso_wechat_ls.Base.Dict.{Dict, lookup, insert}
use thuso_wechat_ls.Base.Json.{
  Value, null, number, str, arr, obj, Fields, end, field, Python, get, get_field, truthy, or_else,
  str_of, text_field,
}
use thuso_wechat_ls.Partners.World.{
  World, Wire, AdapterContext, Call, token_call, Reply, unreachable, broken, answered,
}
use thuso_wechat_ls.Partners.Endpoints.{validate_remote_url}

-- A call goes out, and its reply comes back.
unfoldable pub transmit : World → Call → Exec Wire Reply
transmit w c s = (ok (w.reply s.calls c), record s { calls = c ∷ s.calls })

-- `time.time()`
abbrev pub now_of : World → Exec Wire ℕ
now_of w s = (ok (w.time s.calls), s)

abbrev pub is_null : Value → Bool
is_null null = true
is_null v = false

module _ (py : Python) where
  -- `{str(k): str(v) for k, v in headers.items()}`
  unfoldable pub texts_of : Fields → Dict String
  texts_of end = []
  texts_of (field k v fs) = (k, str_of py v) ∷ texts_of fs

  abbrev pub extra_headers : Value → Result (Dict String)
  extra_headers (obj fs) = ok (texts_of fs)
  extra_headers v = err attribute_error "object has no attribute 'items'"

module _ (py : Python) (w : World) where
  abbrev pub bearer : String → Dict String
  bearer key = ("Authorization", "Bearer " <> key) ∷ []

  -- The signature of `method`, `path`, time and body, each on a line of its own.
  abbrev pub signature : Value → String → String → String → String → String
  signature secret method path timestamp body =
      w.hmac_sha256 (str_of py secret)
        (py.upper method <> "\n" <> path <> "\n" <> timestamp <> "\n" <> body)

  unfoldable pub sign : AdapterContext → String → String → String → Value → ℕ → Dict String
  sign ctx method path body secret now =
      insert (text_field py "signature_header" "X-Signature" ctx.auth_config)
        (signature secret method path (w.decimal now) body)
        ((text_field py "timestamp_header" "X-Timestamp" ctx.auth_config, w.decimal now) ∷ [])

  -- `float(token_data.get("expires_in", 300))`
  abbrev pub lifetime : Option Value → Result ℤ
  lifetime none = ok (pos 300)
  lifetime (some (number n)) = ok n
  lifetime (some (str t)) = elim (py.int_of t) [
    | none ↦ err value_error "could not convert string to float"
    | some n ↦ ok n
  ]
  lifetime (some v) = err type_error "float() argument must be a string or a real number"

  -- `cls.token_cache[cache_key] = (str(token), now + expires)`
  abbrev pub cache_token : String → String → ℤ → Exec Wire (Dict String)
  cache_token cache_key token expires s = (
    ok (bearer token),
    record s { token_cache = insert cache_key (token, expires) s.token_cache },
  )

  abbrev pub accept_token : String → ℕ → Option Value → Exec Wire (Dict String)
  accept_token cache_key now (some (obj fs)) =
      if truthy (get "access_token" fs)
      then (do
        expires ← lift (lifetime (get_field "expires_in" fs))
        cache_token cache_key (str_of py (get "access_token" fs)) (pos now +ℤ expires))
      else raise runtime_error "OAuth2 token endpoint returned no access_token"
  accept_token cache_key now (some v) = raise attribute_error "object has no attribute 'get'"
  accept_token cache_key now none = raise decode_error "Expecting value"

  abbrev pub token_reply : String → ℕ → Reply → Exec Wire (Dict String)
  token_reply cache_key now unreachable = raise http_error "connection failed"
  token_reply cache_key now (broken m) = raise http_error m
  token_reply cache_key now (answered status headers content) =
      if leb 400 status
      then raise runtime_error ("OAuth2 token endpoint returned HTTP " <> w.decimal status)
      else accept_token cache_key now (py.loads content)

  abbrev pub scope_of : Value → Option String
  scope_of v = if truthy v then some (str_of py v) else none

  -- A cached token serves until 30 seconds before it expires.
  abbrev pub serves : ℕ → Option (String × ℤ) → Bool
  serves now none = false
  serves now (some (token, expires)) = ltb_ℤ (pos (now + 30)) expires

  abbrev pub cached_token : Option (String × ℤ) → String
  cached_token none = ""
  cached_token (some (token, expires)) = token

  unfoldable pub oauth_token : AdapterContext → String → ℕ → Exec Wire (Dict String)
  unfolding transmit
  oauth_token ctx cache_key now s =
      if serves now (lookup cache_key s.token_cache)
      then (ok (bearer (cached_token (lookup cache_key s.token_cache))), s)
      else (transmit w (
              token_call (str_of py (get "token_url" ctx.auth_config))
                (str_of py (get "client_id" ctx.auth_config))
                (str_of py (get "client_secret" ctx.secrets))
                (scope_of (get "scope" ctx.auth_config)) ctx.timeout_seconds)
            >>= token_reply cache_key now)
          s

  abbrev pub cache_key_of : AdapterContext → String
  cache_key_of ctx =
      str_of py (get "token_url" ctx.auth_config)
      <> ":"
      <> str_of py (get "client_id" ctx.auth_config)

  unfoldable pub oauth_headers : AdapterContext → Exec Wire (Dict String)
  unfolding oauth_token
  oauth_headers ctx = do
    lift (
        validate_remote_url w (str_of py (get "token_url" ctx.auth_config))
          ctx.allow_private_network)
    if truthy (get "token_url" ctx.auth_config)
          && truthy (get "client_id" ctx.auth_config)
          && truthy (get "client_secret" ctx.secrets)
        then (now_of w >>= oauth_token ctx (cache_key_of ctx))
        else raise runtime_error "OAuth2 client-credentials configuration is incomplete"

  abbrev pub missing_key : Exec Wire (Dict String)
  missing_key = raise runtime_error "partner API credential is missing"

  -- The headers that authenticate a call.
  unfoldable pub auth_headers :
      AdapterContext → (method path body : String) → Exec Wire (Dict String)
  unfolding texts_of sign oauth_headers
  auth_headers ctx method path body =
      let scheme = py.lower ctx.auth_scheme in
      let key = get "api_key" ctx.secrets in
      if str_eq scheme "none"
      then pure []
      else if str_eq scheme "bearer"
      then (if truthy key then pure (bearer (str_of py key)) else missing_key)
      else if str_eq scheme "api-key"
      then (if truthy key
          then pure ((text_field py "header_name" "X-API-Key" ctx.auth_config, str_of py key) ∷ [])
          else missing_key)
      else if str_eq scheme "basic"
      then (if not (truthy key) || is_null (get "api_secret" ctx.secrets)
          then raise runtime_error "partner basic-auth credentials are missing"
          else pure (
              (
                "Authorization",
                "Basic "
                    <> w.base64 (str_of py key <> ":" <> str_of py (get "api_secret" ctx.secrets)),
              )
              ∷ []))
      else if str_eq scheme "custom"
      then lift (extra_headers py (or_else (get "extra_headers" ctx.secrets) (obj end)))
      else if str_eq scheme "hmac_sha256"
      then (if truthy (get "hmac_secret" ctx.secrets)
          then (do
            now ← now_of w
            pure (sign ctx method path body (get "hmac_secret" ctx.secrets) now))
          else raise runtime_error "HMAC signing secret is missing")
      else if str_eq scheme "oauth2_client_credentials"
      then oauth_headers ctx
      else if str_eq scheme "mtls"
      then (if truthy (get "client_cert_pem" ctx.secrets)
            && truthy (get "client_key_pem" ctx.secrets)
          then pure []
          else raise runtime_error "mTLS client certificate and key are required")
      else raise runtime_error ("unsupported partner auth scheme: " <> ctx.auth_scheme)

-- ===== src/Partners/World.antt =====
-- What the adapters of app/integrations/universal_adapter.py work on: the context of a call, the
-- calls that leave the process, and the replies. A body of bytes stands as the text that it decodes
-- to, and times are in whole seconds.
use thuso_wechat_ls.Base.{ℕ, Bool, Option, List, String, Result}
use thuso_wechat_ls.Base.Int.{ℤ}
use thuso_wechat_ls.Base.Dict.{Dict}
use thuso_wechat_ls.Base.Json.{Value, Fields}

pub record AdapterContext : Type 0 where
  pub base_url : String
  pub operation : String
  pub trace_id : String
  pub timeout_seconds : ℕ
  pub request_defaults : Fields
  pub operation_config : Fields
  pub auth_scheme : String
  pub auth_config : Fields
  pub secrets : Fields
  pub allow_private_network : Bool

pub record AdapterResponse : Type 0 where
  pub status_code : ℕ
  pub headers : Dict String
  pub body : Value
  pub raw_text : String

-- `httpx.URL`
pub record Url : Type 0 where
  pub scheme : String
  pub host : String
  pub port : Option ℕ

-- `ipaddress.ip_address`
pub record Address : Type 0 where
  pub is_private : Bool
  pub is_loopback : Bool
  pub is_link_local : Bool
  pub is_reserved : Bool
  pub is_multicast : Bool

-- A client certificate: certificate, key and, where it is configured, the authorities.
pub record Certificate : Type 0 where
  pub certificate : String
  pub key : String
  pub authorities : Option String

-- What leaves the process: `client.request` and `client.get`, and the `client.post` to a token
-- endpoint.
pub data Call : Type 0 where
  request_call :
      (method url : String)
      → (body : Option String) → (headers : Dict String) → (timeout : ℕ)
      → (certificate : Option Certificate) → Call
  token_call :
      (url client_id client_secret : String) → (scope : Option String) → (timeout : ℕ) → Call

-- `ConnectError`, `ConnectTimeout` or `ReadTimeout`; another exception of the client; a response.
pub data Reply : Type 0 where
  unreachable : Reply
  broken : String → Reply
  answered : (status_code : ℕ) → (headers : Dict String) → (content : String) → Reply

-- The process: the calls it has made, the latest first, the pauses it has slept, in quarters of a
-- second, and `_AuthBuilder.token_cache`, tokens with the time at which they expire.
pub record Wire : Type 0 where
  pub calls : List Call
  pub pauses : List ℕ
  pub token_cache : Dict (String × ℤ)

-- The network and the clock, which depend on the calls made so far, and the libraries for
-- addresses, encodings and signatures.
pub record World : Type 0 where
  pub parse_url : String → Result Url
  pub resolve : String → ℕ → Option (List Address)
  pub app_env : String
  pub reply : List Call → Call → Reply
  pub time : List Call → ℕ
  pub decimal : ℕ → String
  pub base64 : String → String
  pub hmac_sha256 : String → String → String
  pub load_chain : Certificate → Result Certificate
  pub urlencode : Dict String → String

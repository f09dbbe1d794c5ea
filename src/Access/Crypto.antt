-- ===== src/Access/Crypto.antt =====
-- `SecretCipher` of app/core/crypto.py, and the signature checks of app/core/security.py and
-- app/core/payment_security.py. The cipher, the encoding and the hash are parameters; bytes stand as
-- texts.
use Prim.Native.String.{len}
use text.Mathlib.Text.{◌==◌ as str_eq, starts_with}
use thuso_wechat_ls.Base.{
  ℕ, Bool, true, false, not, ◌||◌, Option, none, some, String, ◌<>◌, ◌==◌, if◌then◌else◌, Result,
  ok, err, runtime_error, value_error, http_status,
}
use thuso_wechat_ls.Base.Text.{remove_prefix, split_once}
pub mod Laws

-- AES-GCM and URL-safe base 64: what they may refuse gives nothing.
pub record Ciphers : Type 0 where
  pub encode : String → String
  pub decode : String → Option String
  pub seal : (key nonce plaintext : String) → String
  pub unseal : (key nonce ciphertext : String) → Option String

-- The three parts of `payload.split(":", 2)`.
abbrev pub last_two : String → Option (String × String) → Option (String × String × String)
last_two a none = none
last_two a (some (b, c)) = some (a, b, c)

abbrev pub after_first : Option (String × String) → Option (String × String × String)
after_first none = none
after_first (some (a, rest)) = last_two a (split_once b':' rest)

abbrev pub split_payload : String → Option (String × String × String)
split_payload payload = after_first (split_once b':' payload)

module _ (ciphers : Ciphers) where
  -- `SecretCipher.__init__`: the key, where it is one.
  abbrev pub check_key : Option String → Result String
  check_key none = err runtime_error "SECRETS_ENCRYPTION_KEY must be URL-safe base64"
  check_key (some key) =
      if len key == 32
      then ok key
      else err runtime_error "SECRETS_ENCRYPTION_KEY must decode to exactly 32 bytes"

  unfoldable pub cipher_key : (encoded_key : String) → Result String
  cipher_key encoded_key =
      if str_eq encoded_key ""
      then err runtime_error "SECRETS_ENCRYPTION_KEY is not configured"
      else check_key (ciphers.decode encoded_key)

  -- `nonce` is `os.urandom(12)`.
  unfoldable pub encrypt : (key nonce plaintext : String) → String
  encrypt key nonce plaintext =
      "v1:" <> (ciphers.encode nonce <> (":" <> ciphers.encode (ciphers.seal key nonce plaintext)))

  abbrev pub unreadable : Result String
  unreadable = err runtime_error "Unable to decrypt integration secret"

  abbrev pub opened : Option String → Result String
  opened none = unreadable
  opened (some plaintext) = ok plaintext

  abbrev pub unseal_with : String → Option String → Option String → Result String
  unseal_with key (some nonce) (some ciphertext) = opened (ciphers.unseal key nonce ciphertext)
  unseal_with key a b = unreadable

  abbrev pub decrypt_parts : String → Option (String × String × String) → Result String
  decrypt_parts key none = unreadable
  decrypt_parts key (some (version, nonce_b64, ciphertext_b64)) =
      if str_eq version "v1"
      then unseal_with key (ciphers.decode nonce_b64) (ciphers.decode ciphertext_b64)
      else unreadable

  unfoldable pub decrypt : (key payload : String) → Result String
  unfolding split_once
  decrypt key payload = decrypt_parts key (split_payload payload)

module _ (hmac_sha256 : String → String → String) where
  abbrev pub present : Option String → String
  present none = ""
  present (some s) = s

  unfoldable pub verify_meta_signature :
      (raw_body : String) → (signature : Option String) → (app_secret : String) → Result (Unit {0})
  verify_meta_signature raw_body signature app_secret =
      if str_eq (present signature) "" || not (starts_with (present signature) "sha256=")
      then err (http_status 401) "Missing webhook signature"
      else if str_eq (hmac_sha256 app_secret raw_body) (remove_prefix (present signature) "sha256=")
      then ok tt
      else err (http_status 401) "Invalid webhook signature"

  unfoldable pub verify_hmac :
      (raw : String) → (signature : Option String) → (secret : String) → Bool
  verify_hmac raw signature secret =
      if str_eq (present signature) "" || str_eq secret ""
      then false
      else str_eq (remove_prefix (present signature) "sha256=") (hmac_sha256 secret raw)

-- ===== src/Access/Tests.antt =====
-- Runs of the access checks.
use text.Mathlib.Text.{◌==◌ as str_eq}
use thuso_wechat_ls.Base.{
  ℕ, ◌≤◌, ◌≡◌, ◌↔◌, refl, false, Option, none, some, [], ◌∷◌, String, ◌==◌, if◌then◌else◌, find,
  find_where, put, Table, ok, err, http_status, arith, is_ok,
}
use thuso_wechat_ls.Base.Dict.{lookup}
use thuso_wechat_ls.Base.Text.{Free}
use thuso_wechat_ls.Access.Principal.{Directory, Provider, RequestRow, require_request_access}
use thuso_wechat_ls.Access.Principal.Laws.{MaySee, require_request_access_exact}
use thuso_wechat_ls.Access.Otp.{OtpChallenge, verify_otp}
use thuso_wechat_ls.Access.Otp.Laws.{verify_all, count_accepted, verify_otp_once, verify_otp_locks}
use thuso_wechat_ls.Access.Crypto.{Ciphers, encrypt, decrypt}
use thuso_wechat_ls.Access.Crypto.Laws.{decrypt-encrypt}
use thuso_wechat_ls.Access.Passwords.{Hashing, hash_admin_password, verify_admin_password, Parts}
use thuso_wechat_ls.Access.Passwords.Laws.{
  IsLimited, hash_admin_password_refused, default_maxmem, scrypt_memory,
}
use thuso_wechat_ls.Base.{ltb, Result}
use thuso_wechat_ls.Base.Text.{split_once}
use thuso_wechat_ls.Access.Sessions.{
  Accounts, create_session, resolve_session, session_row, new_session, bind_whatsapp,
}
use thuso_wechat_ls.Access.Sessions.Laws.{resolve_session-create_session}
use thuso_wechat_ls.Access.Admin.{
  Admins, AdminUser, AdminSession, AdminRow, Settings, WebRequest, Env, require_admin, token_of,
}
use thuso_wechat_ls.Access.Admin.Laws.{IsSignedIn, require_admin-IsSignedIn}
use thuso_wechat_ls.Access.Login.Laws.{Attempt, try_login, after_logins, login_locks}

abbrev shop : Provider
shop = record { owner_user_id = 4; category = "retail"; status = "active"; business_name = "Shop" }

abbrev trip : RequestRow
trip = record { user_id = 6; accepted_provider_id = some 9; category = "ride"; status = "accepted" }

abbrev directory : Directory
directory = record {
  users = [];
  providers = (9, shop) ∷ [];
  roles =
      record { user_id = 5; role = "provider"; scope_type = some "provider"; scope_id = some 9 }
      ∷ [];
  requests = (3, trip) ∷ [];
  jobs = [];
}

require_request_access_exact_example :
    (require_request_access directory 3 5 ≡ ok trip) ↔ MaySee directory 5 trip
unfolding find
require_request_access_exact_example = require_request_access_exact directory 3 5 trip refl

-- The hash of the tests is the text itself.
abbrev same : String → String
same s = s

abbrev challenge : OtpChallenge
challenge = record {
  user_id = 6;
  channel_identity_id = 2;
  purpose = "login";
  code_hash = "123456";
  attempts = 0;
  max_attempts = 2;
  expires_at = 300;
  consumed_at = none;
}

abbrev challenges : Table OtpChallenge
challenges = (8, challenge) ∷ []

verify_otp_once_example :
    count_accepted same same 300 2
      (verify_all same same 300 2 8 ((10, "123456") ∷ (11, "123456") ∷ []) challenges).0
    ≤ 1
unfolding find
verify_otp_once_example =
    verify_otp_once same same 300 2 8 ((10, "123456") ∷ (11, "123456") ∷ []) challenges challenge
      refl

verify_otp_locks_example :
    (verify_otp same same 300 2 20 8 "123456"
      (verify_all same same 300 2 8 ((10, "000000") ∷ (11, "111111") ∷ []) challenges).1).0
    ≡ false
unfolding find
verify_otp_locks_example =
    verify_otp_locks same same 300 2 8 ((10, "000000") ∷ (11, "111111") ∷ []) challenges challenge
      20 "123456" refl ((refl, refl), ((refl, refl), tt)) (omega arith)

abbrev ciphers : Ciphers
ciphers = record {
  encode = λ bytes. bytes;
  decode = λ s. some s;
  seal = λ key nonce plaintext. plaintext;
  unseal = λ key nonce ciphertext. some ciphertext;
}

decrypt-encrypt_example :
    decrypt ciphers "key" (encrypt ciphers "key" "nonce" "secret") ≡ ok "secret"
unfolding Free
decrypt-encrypt_example =
    decrypt-encrypt ciphers "key" "nonce" "secret" refl refl
      (refl, (refl, (refl, (refl, (refl, tt))))) refl

abbrev digest : String
digest = "0123456789abcdef0123456789abcdef0123456789abcdef0123456789abcdef"

abbrev decimal : ℕ → String
decimal n = if n == 1 then "1" else if n == 8 then "8" else "32768"

abbrev int_of : String → Option ℕ
int_of s = if str_eq s "1" then some 1 else if str_eq s "8" then some 8 else some 32768

abbrev hashing : Hashing
hashing = record {
  scrypt = λ password salt n r p dklen.
      if ltb default_maxmem (scrypt_memory n r p) then none else some digest;
  encode = λ bytes. bytes;
  decode = λ s. some s;
  decimal = decimal;
  int_of = int_of;
}

hashing-IsLimited : IsLimited hashing
hashing-IsLimited = record { refuses = λ password salt n r p dklen much. ground (arith, much) }

abbrev stored : String
stored = "scrypt$32768$8$1$salt$0123456789abcdef0123456789abcdef0123456789abcdef0123456789abcdef"

abbrev stored_parts : Parts
stored_parts = record {
  algorithm = "scrypt";
  n = "32768";
  r = "8";
  p = "1";
  salt = "salt";
  digest = "0123456789abcdef0123456789abcdef0123456789abcdef0123456789abcdef";
}

hash_admin_password_refused_example :
    (is_ok (hash_admin_password hashing "salt" "correct horse") ≡ false)
    × (verify_admin_password hashing "correct horse" stored ≡ false)
unfolding split_once
hash_admin_password_refused_example =
    hash_admin_password_refused hashing "correct horse" "salt" stored stored_parts hashing-IsLimited
      refl refl refl refl

abbrev accounts : Accounts
accounts = record {
  users = (4, record { phone_e164 = "+26650000000"; display_name = none }) ∷ [];
  identities = [];
  sessions = [];
  events = [];
}

abbrev opened : Accounts
opened = record accounts { sessions = (7, new_session same 100 60 4 none "token") ∷ [] }

resolve_session-create_session_example :
    (resolve_session same 200 "token" opened).0
    ≡ some (session_row same 7 (new_session same 100 60 4 none "token"))
unfolding create_session find_where put
resolve_session-create_session_example =
    resolve_session-create_session same 100 60 7 "token" 4 none accounts opened ("token", 3700) 200
      (λ e. cc e) refl (omega arith)

abbrev bound : Result (ℕ × ℕ × String × ℕ) × Accounts
bound =
    bind_whatsapp same (λ phone. ok phone) 100 60 5 6 7 "token" "anyone" "+26650000000" none
      accounts

abbrev env : Env
env = record {
  hash_token = same;
  verify_password = λ password encoded. str_eq password encoded;
  hash_password = λ password. ok password;
  normalise_email = λ email. ok email;
  lower = same;
  strip = same;
}

abbrev settings : Option String → Settings
settings csrf_cookie = record {
  app_env = "production";
  admin_bootstrap_token = "";
  admin_session_ttl_hours = 12;
  admin_cookie_name = "nahaos_admin_session";
  admin_cookie_secure = false;
  admin_cookie_samesite = "lax";
  admin_csrf_cookie_name = csrf_cookie;
}

abbrev admin : AdminUser
admin = record {
  email = "a@b.ls";
  password_hash = "right";
  role = "platform_admin";
  status = "active";
  failed_login_attempts = 3;
  locked_until = none;
  last_login_at = none;
}

abbrev session : ℕ → AdminSession
session seen = record {
  admin_user_id = 1;
  token_hash = "token";
  csrf_hash = "csrf";
  expires_at = 900;
  revoked_at = none;
  last_seen_at = seen;
  ip_address = none;
  user_agent = "";
}

abbrev admins : ℕ → Admins
admins seen = record { users = (1, admin) ∷ []; sessions = (2, session seen) ∷ []; audits = [] }

abbrev request : WebRequest
request = record {
  cookies = ("nahaos_admin_session", "token") ∷ ("csrf_cookie", "csrf") ∷ [];
  headers = ("x-csrf-token", "csrf") ∷ [];
  client_host = none;
}

abbrev row : AdminRow
row = record {
  id = 2;
  admin_user_id = 1;
  csrf_hash = "csrf";
  expires_at = 900;
  email = "a@b.ls";
  role = "platform_admin";
  status = "active";
}

require_admin-IsSignedIn_example :
    (token : String) × (token_of env (settings none) request ≡ ok token)
    × IsSignedIn env (settings none) 100 token (admins 0) row
unfolding require_admin find find_where put lookup
require_admin-IsSignedIn_example =
    require_admin-IsSignedIn env (settings none) 100 request (admins 0) (admins 100) row refl

abbrev attempt : ℕ → String → Attempt
attempt now password = record {
  at_time = now;
  new_session_id = 3;
  token = "t";
  csrf = "c";
  password = password;
  request = request;
}

login_locks_example :
    try_login env
      (settings none)
      "a@b.ls"
      "a@b.ls"
      (attempt 50 "right")
      (try_login env
        (settings none)
        "a@b.ls"
        "a@b.ls"
        (attempt 20 "guess")
        (after_logins env (settings none) "a@b.ls" "a@b.ls" (attempt 10 "wrong" ∷ []) (admins 0))).1
    ≡ (
      err (http_status 423) "Admin account temporarily locked",
      (try_login env (settings none) "a@b.ls" "a@b.ls" (attempt 20 "guess") (
          after_logins env
            (settings none)
            "a@b.ls"
            "a@b.ls"
            (attempt 10 "wrong" ∷ [])
            (admins 0))).1,
    )
unfolding find_where
login_locks_example =
    login_locks env (settings none) "a@b.ls" "a@b.ls" (attempt 10 "wrong" ∷ []) (attempt 20 "guess")
      (attempt 50 "right") (admins 0) 1 admin refl refl refl refl refl (refl, tt) refl (omega arith)

-- ===== src/Access/Admin.antt =====
-- Administrators: the sessions of app/core/admin_auth.py. Passwords and tokens are hashed by
-- parameters.
use Prim.Native.String.{count}
use text.Mathlib.Text.{◌==◌ as str_eq, starts_with}
use thuso_wechat_ls.Base.{
  ℕ, zero, suc, ◌+◌, ◌*◌, Bool, true, false, not, ◌&&◌, ◌||◌, Option, none, some, List, [], ◌∷◌,
  ◌++◌, String, ◌==◌, leb, ltb, if◌then◌else◌, is_some, or_default, null, Table, find, find_where,
  put, update_where, update_row, Exec, Result, ok, err, Kind, pure, raise, raise_if, lift, ◌>>=◌,
  ◌>>◌, value_error, integrity_error, attribute_error, index_error, http_status,
}
use thuso_wechat_ls.Base.Text.{split_once}
use thuso_wechat_ls.Base.Uuid.{uuid_text}
use thuso_wechat_ls.Base.Dict.{Dict, lookup}
pub mod Laws

pub record AdminUser : Type 0 where
  pub email : String
  pub password_hash : String
  pub role : String
  pub status : String
  pub failed_login_attempts : ℕ
  pub locked_until : Option ℕ
  pub last_login_at : Option ℕ

pub record AdminSession : Type 0 where
  pub admin_user_id : ℕ
  pub token_hash : String
  pub csrf_hash : String
  pub expires_at : ℕ
  pub revoked_at : Option ℕ
  pub last_seen_at : ℕ
  pub ip_address : Option String
  pub user_agent : String

pub record AuditEvent : Type 0 where
  pub admin_user_id : String
  pub action : String
  pub target_type : String
  pub target_id : Option String
  pub email : Option String

pub record Admins : Type 0 where
  pub users : Table AdminUser
  pub sessions : Table AdminSession
  pub audits : List AuditEvent

-- The settings that the code reads. `admin_csrf_cookie_name` is `none` where `Settings` has no such
-- field, as in app/core/config.py: reading it raises an `AttributeError`.
pub record Settings : Type 0 where
  pub app_env : String
  pub admin_bootstrap_token : String
  pub admin_session_ttl_hours : ℕ
  pub admin_cookie_name : String
  pub admin_cookie_secure : Bool
  pub admin_cookie_samesite : String
  pub admin_csrf_cookie_name : Option String

pub record WebRequest : Type 0 where
  pub cookies : Dict String
  pub headers : Dict String
  pub client_host : Option String

-- What `resolve_admin_session` gives, and `require_admin` with the token.
pub record AdminRow : Type 0 where
  pub id : ℕ
  pub admin_user_id : ℕ
  pub csrf_hash : String
  pub expires_at : ℕ
  pub email : String
  pub role : String
  pub status : String

-- `text[:n]`
unfoldable pub take_chars : ℕ → String → String
take_chars zero s = String.[]
take_chars (suc n) String.[] = String.[]
take_chars (suc n) (String.◌∷◌ c s) = String.◌∷◌ c (take_chars n s)

-- `cookies.get(name) or ""`
abbrev pub text_or_empty : Option String → String
text_or_empty none = ""
text_or_empty (some s) = s

-- The parameters: the hash of a token, the check of a password, the making of its hash, the normal
-- form of an email, and `lower` and `strip`.
pub record Env : Type 0 where
  pub hash_token : String → String
  pub verify_password : (password encoded : String) → Bool
  pub hash_password : String → Result String
  pub normalise_email : String → Result String
  pub lower : String → String
  pub strip : String → String

module _ (env : Env) (settings : Settings) where
  abbrev pub new_session : (now user : ℕ) (token csrf : String) → WebRequest → AdminSession
  new_session now user token csrf request = record {
    admin_user_id = user;
    token_hash = env.hash_token token;
    csrf_hash = env.hash_token csrf;
    expires_at = now + settings.admin_session_ttl_hours * 3600;
    revoked_at = none;
    last_seen_at = now;
    ip_address = request.client_host;
    user_agent = take_chars 1000 (text_or_empty (lookup "user-agent" request.headers));
  }

  abbrev pub has_token : String → ℕ → AdminSession → Bool
  has_token token id s = str_eq s.token_hash (env.hash_token token)

  abbrev pub insert_session : ℕ → AdminSession → Option (ℕ × AdminSession) → Exec Admins (Unit {0})
  insert_session new_id row (some old) s = (err integrity_error "duplicate key", s)
  insert_session new_id row none s = (ok tt, record s { sessions = put new_id row s.sessions })

  -- `token` and `csrf` are drawn at random.
  unfoldable pub create_admin_session :
      (now new_id : ℕ) (token csrf : String) (admin_user_id : ℕ)
      → WebRequest
      → Exec Admins (String × String × ℕ)
  unfolding take_chars
  create_admin_session now new_id token csrf user request s =
      (insert_session new_id (new_session now user token csrf request)
            (find_where (has_token token) s.sessions)
          >>= λ _. pure (token, csrf, now + settings.admin_session_ttl_hours * 3600))
        s

  abbrev pub is_live : (now : ℕ) → String → ℕ → AdminSession → Bool
  is_live now token id s =
      has_token token id s && not (is_some s.revoked_at) && ltb now s.expires_at

  abbrev pub admin_row : ℕ → AdminSession → AdminUser → AdminRow
  admin_row id s u = record {
    id = id;
    admin_user_id = s.admin_user_id;
    csrf_hash = s.csrf_hash;
    expires_at = s.expires_at;
    email = u.email;
    role = u.role;
    status = u.status;
  }

  abbrev pub touch :
      (now id : ℕ) → AdminSession → Option AdminUser → Admins → Option AdminRow × Admins
  touch now id row none s = (none, s)
  touch now id row (some u) s =
      if str_eq u.status "active"
      then (
        some (admin_row id row u),
        record s { sessions = put id (record row { last_seen_at = now }) s.sessions },
      )
      else (none, s)

  abbrev pub resolve_found :
      (now : ℕ) → Option (ℕ × AdminSession) → Admins → Option AdminRow × Admins
  resolve_found now none s = (none, s)
  resolve_found now (some (id, row)) s = touch now id row (find row.admin_user_id s.users) s

  unfoldable pub resolve_admin_session :
      (now : ℕ) → (token : String) → Admins → Option AdminRow × Admins
  resolve_admin_session now token s =
      resolve_found now (find_where (is_live now token) s.sessions) s

  abbrev pub is_production : Bool
  is_production =
      str_eq (env.lower settings.app_env) "prod" || str_eq (env.lower settings.app_env) "production"

  unfoldable pub session_cookie_settings : Bool × String
  session_cookie_settings =
      (settings.admin_cookie_secure || is_production, settings.admin_cookie_samesite)

  -- `auth.split(" ", 1)[1].strip()`
  abbrev pub after_space : Option (String × String) → Result String
  after_space none = err index_error "list index out of range"
  after_space (some (scheme, rest)) = ok (env.strip rest)

  abbrev pub bearer_of : String → Result String
  bearer_of auth =
      if starts_with (env.lower auth) "bearer " then after_space (split_once b' ' auth) else ok ""

  -- The cookie, or the token of the header where there is none.
  unfoldable pub token_of : WebRequest → Result String
  unfolding split_once
  token_of request =
      let token = text_or_empty (lookup settings.admin_cookie_name request.cookies) in
      if str_eq token ""
      then bearer_of (text_or_empty (lookup "authorization" request.headers))
      else ok token

  abbrev pub known_admin : Option AdminRow × Admins → Result AdminRow × Admins
  known_admin (none, s) = (err (http_status 401) "Admin session expired or invalid", s)
  known_admin (some row, s) = (ok row, s)

  abbrev pub admin_with : (now : ℕ) → Result String → Exec Admins AdminRow
  admin_with now (err k m) s = (err k m, s)
  admin_with now (ok token) s =
      if str_eq token ""
      then (err (http_status 401) "Admin authentication required", s)
      else known_admin (resolve_admin_session now token s)

  unfoldable pub require_admin : (now : ℕ) → WebRequest → Exec Admins AdminRow
  unfolding resolve_admin_session token_of
  require_admin now request = admin_with now (token_of request)

  abbrev pub check_csrf : WebRequest → AdminRow → Option String → Result AdminRow
  check_csrf request admin none =
      err attribute_error "'Settings' object has no attribute 'admin_csrf_cookie_name'"
  check_csrf request admin (some name) =
      let cookie = text_or_empty (lookup name request.cookies) in
      let header = text_or_empty (lookup "x-csrf-token" request.headers) in
      if str_eq cookie ""
        || str_eq header ""
        || not (str_eq cookie header)
        || not (str_eq (env.hash_token header) admin.csrf_hash)
      then err (http_status 403) "CSRF validation failed"
      else ok admin

  unfoldable pub require_admin_write : (now : ℕ) → WebRequest → Exec Admins AdminRow
  unfolding require_admin
  require_admin_write now request = do
    admin ← require_admin now request
    lift (check_csrf request admin settings.admin_csrf_cookie_name)

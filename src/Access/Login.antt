-- ===== src/Access/Login.antt =====
-- The routes of app/api/admin.py for signing in and out, and for the first administrator.
use Prim.Native.String.{count}
use text.Mathlib.Text.{◌==◌ as str_eq, starts_with}
use thuso_wechat_ls.Base.{
  ℕ, zero, suc, ◌+◌, ◌*◌, Bool, true, false, not, ◌&&◌, ◌||◌, Option, none, some, List, [], ◌∷◌,
  ◌++◌, String, ◌==◌, leb, ltb, if◌then◌else◌, is_some, or_default, null, Table, find, find_where,
  put, update_where, update_row, Exec, Result, ok, err, Kind, pure, raise, raise_if, lift, ◌>>=◌,
  ◌>>◌, value_error, integrity_error, attribute_error, index_error, http_status,
}
use thuso_wechat_ls.Base.Text.{split_once}
use thuso_wechat_ls.Base.Uuid.{uuid_text}
use thuso_wechat_ls.Base.Dict.{Dict, lookup}
use thuso_wechat_ls.Access.Admin.{
  AdminUser, AdminSession, AuditEvent, Admins, Settings, WebRequest, AdminRow, Env,
  create_admin_session, require_admin_write,
}
pub mod Laws

-- The answer to a login: the cookies that it sets, and the body.
pub record LoginAnswer : Type 0 where
  pub cookies : Dict String
  pub expires_at : ℕ
  pub csrf_token : String

module _ (env : Env) (settings : Settings) where
  abbrev pub audit : ℕ → String → Option String → Exec Admins (Unit {0})
  audit id action email s = (
    ok tt,
    record s {
      audits =
          s.audits
          ++ (record {
            admin_user_id = uuid_text id;
            action = action;
            target_type = "admin_user";
            target_id = some (uuid_text id);
            email = email;
          }
              ∷ []);
    },
  )

  -- Only the cookie of the session is set.
  abbrev pub login_response : String × String × ℕ → LoginAnswer
  login_response (token, csrf, expires) = record {
    cookies = (settings.admin_cookie_name, token) ∷ [];
    expires_at = expires;
    csrf_token = csrf;
  }

  abbrev pub insert_admin : ℕ → String → String → Exec Admins (Unit {0})
  insert_admin new_id email password_hash s = (
    ok tt,
    record s {
      users =
          put new_id
            (record {
              email = email;
              password_hash = password_hash;
              role = "platform_admin";
              status = "active";
              failed_login_attempts = 0;
              locked_until = none;
              last_login_at = none;
            })
            s.users;
    },
  )

  abbrev pub no_admins : Exec Admins (Unit {0})
  no_admins s =
      if null s.users
      then (ok tt, s)
      else (err (http_status 409) "Admin bootstrap has already been completed", s)

  unfoldable pub bootstrap :
      (now new_admin new_session_id : ℕ) (token csrf : String)
      → (bootstrap_token email password : String) → WebRequest
      → Exec Admins LoginAnswer
  unfolding create_admin_session
  bootstrap now new_admin new_session_id token csrf bootstrap_token email password request = do
    raise_if (str_eq settings.admin_bootstrap_token "") (http_status 503)
        "Admin bootstrap is disabled"
    raise_if (not (str_eq bootstrap_token settings.admin_bootstrap_token)) (http_status 401)
        "Invalid bootstrap token"
    no_admins
    address ← lift (env.normalise_email email)
    password_hash ← lift (env.hash_password password)
    insert_admin new_admin address password_hash
    audit new_admin "admin.bootstrap" (some address)
    created ← create_admin_session env settings now new_session_id token csrf new_admin request
    pure (login_response created)

  abbrev pub has_email : String → ℕ → AdminUser → Bool
  has_email email id u = str_eq u.email email

  abbrev pub is_locked : (now : ℕ) → AdminUser → Bool
  is_locked now u = elim u.locked_until [ none ↦ false | some until ↦ ltb now until ]

  -- The fifth failure locks the account for 15 minutes, and the count starts again.
  abbrev pub count_failure : (now : ℕ) → AdminUser → AdminUser
  count_failure now u =
      if leb 5 (u.failed_login_attempts + 1)
      then record u { failed_login_attempts = 0; locked_until = some (now + 900) }
      else record u { failed_login_attempts = u.failed_login_attempts + 1 }

  abbrev pub signed_in : (now : ℕ) → AdminUser → AdminUser
  signed_in now u = record u {
    failed_login_attempts = 0;
    locked_until = none;
    last_login_at = some now;
  }

  abbrev pub set_user : ℕ → AdminUser → Admins → Admins
  set_user id u s = record s { users = put id u s.users }

  abbrev pub sign_in :
      (now new_session_id : ℕ) (token csrf : String) (id : ℕ)
      → AdminUser
      → WebRequest
      → Exec Admins LoginAnswer
  sign_in now new_session_id token csrf id u request s =
      (create_admin_session env settings now new_session_id token csrf id request >>= λ created.
      audit id "admin.login" none >> pure (login_response created))
        (set_user id (signed_in now u) s)

  abbrev pub login_found :
      (now new_session_id : ℕ) (token csrf password : String)
      → WebRequest
      → Option (ℕ × AdminUser)
      → Exec Admins LoginAnswer
  login_found now new_session_id token csrf password request none s =
      (err (http_status 401) "Invalid credentials", s)
  login_found now new_session_id token csrf password request (some (id, u)) s =
      if is_locked now u
      then (err (http_status 423) "Admin account temporarily locked", s)
      else if env.verify_password password u.password_hash
      then sign_in now new_session_id token csrf id u request s
      else (err (http_status 401) "Invalid credentials", set_user id (count_failure now u) s)

  abbrev pub login_email :
      (now new_session_id : ℕ) (token csrf password : String)
      → WebRequest
      → Result String
      → Exec Admins LoginAnswer
  login_email now new_session_id token csrf password request (err k m) s = (err k m, s)
  login_email now new_session_id token csrf password request (ok email) s =
      login_found now new_session_id token csrf password request
        (find_where (has_email email) s.users) s

  unfoldable pub login :
      (now new_session_id : ℕ) (token csrf : String)
      → (email password : String) → WebRequest
      → Exec Admins LoginAnswer
  unfolding create_admin_session
  login now new_session_id token csrf email password request =
      login_email now new_session_id token csrf password request (env.normalise_email email)

  abbrev pub is_row : ℕ → ℕ → AdminSession → Bool
  is_row id k s = k == id

  abbrev pub revoke : (now : ℕ) → AdminSession → AdminSession
  revoke now s = record s { revoked_at = some now }

  abbrev pub revoke_row : (now id : ℕ) → Exec Admins (Unit {0})
  revoke_row now id s =
      (ok tt, record s { sessions = update_where (is_row id) (revoke now) s.sessions })

  unfoldable pub logout : (now : ℕ) → WebRequest → Exec Admins (Unit {0})
  unfolding require_admin_write
  logout now request = do
    admin ← require_admin_write env settings now request
    revoke_row now admin.id

-- ===== src/Access/Sessions.antt =====
-- Identities and their sessions: `resolve_whatsapp_identity` and the sessions of
-- app/core/identity.py, `require_session` of app/core/auth.py, and the routes of
-- app/api/identity.py. `hash_secret` and the normal form of phone numbers are parameters.
use Prim.Native.String.{len, slice}
use text.Mathlib.Text.{◌==◌ as str_eq, find?}
use thuso_wechat_ls.Base.{
  ℕ, ◌+◌, ◌*◌, Bool, true, false, not, ◌&&◌, ◌||◌, Option, none, some, List, [], ◌∷◌, ◌++◌, String,
  ◌==◌, ltb, if◌then◌else◌, is_some, or_default, Table, find, find_where, put, update_where, Exec,
  Result, ok, err, Kind, pure, raise, lift, modify, get_state, ◌>>=◌, ◌>>◌, value_error,
  integrity_error, http_status,
}
pub mod Laws

pub record ChannelIdentity : Type 0 where
  pub user_id : ℕ
  pub channel : String
  pub external_subject : String
  pub phone_e164 : String
  pub status : String
  pub verified_at : Option ℕ

pub record Person : Type 0 where
  pub phone_e164 : String
  pub display_name : Option String

pub record AuthSession : Type 0 where
  pub user_id : ℕ
  pub channel_identity_id : Option ℕ
  pub token_hash : String
  pub expires_at : ℕ
  pub revoked_at : Option ℕ
  pub last_seen_at : ℕ

pub record IdentityEvent : Type 0 where
  pub user_id : ℕ
  pub channel_identity_id : ℕ
  pub event_type : String
  pub external_subject : String

pub record Accounts : Type 0 where
  pub users : Table Person
  pub identities : Table ChannelIdentity
  pub sessions : Table AuthSession
  pub events : List IdentityEvent

-- What the dependency gives to a handler: the session's row and its token.
pub record Session : Type 0 where
  pub id : ℕ
  pub user_id : ℕ
  pub channel_identity_id : Option ℕ
  pub expires_at : ℕ

abbrev pub is_subject : String → ℕ → ChannelIdentity → Bool
is_subject subject id i = str_eq i.channel "whatsapp" && str_eq i.external_subject subject

abbrev pub has_phone : String → ℕ → Person → Bool
has_phone phone id u = str_eq u.phone_e164 phone

-- `coalesce(verified_at, now())`
abbrev pub verified : ℕ → Option ℕ → Option ℕ
verified now none = some now
verified now (some t) = some t

abbrev pub refresh : (now : ℕ) → String → ChannelIdentity → ChannelIdentity
refresh now phone i = record i {
  phone_e164 = phone;
  status = "active";
  verified_at = verified now i.verified_at;
}

-- The user of the phone, inserted where there is none.
abbrev pub user_for :
    (new_user : ℕ) → String → Option String → Option (ℕ × Person) → Accounts → ℕ × Accounts
user_for new_user phone name (some (id, u)) s = (id, s)
user_for new_user phone name none s = (
  new_user,
  record s { users = put new_user (record { phone_e164 = phone; display_name = name }) s.users },
)

abbrev pub new_identity : (now user : ℕ) → (subject phone : String) → ChannelIdentity
new_identity now user subject phone = record {
  user_id = user;
  channel = "whatsapp";
  external_subject = subject;
  phone_e164 = phone;
  status = "active";
  verified_at = some now;
}

-- A subject that is known is refreshed, and its row comes back as it was; another is bound to the
-- user of the phone.
abbrev pub bind_identity :
    (now new_user new_id : ℕ)
    → (subject phone : String) → Option String
    → Option (ℕ × ChannelIdentity)
    → Exec Accounts (ℕ × ChannelIdentity)
bind_identity now new_user new_id subject phone name (some (id, i)) s =
    (ok (id, i), record s { identities = put id (refresh now phone i) s.identities })
bind_identity now new_user new_id subject phone name none s =
    let (user, t) = user_for new_user phone name (find_where (has_phone phone) s.users) s in
    (
      ok (new_id, new_identity now user subject phone),
      record t {
        identities = put new_id (new_identity now user subject phone) t.identities;
        events =
            t.events
            ++ (record {
              user_id = user;
              channel_identity_id = new_id;
              event_type = "whatsapp_identity_bound";
              external_subject = subject;
            }
                ∷ []);
      },
    )

abbrev pub resolve_phone :
    (now new_user new_id : ℕ)
    → (subject : String) → Option String
    → Result String
    → Exec Accounts (ℕ × ChannelIdentity)
resolve_phone now new_user new_id subject name (err k m) s = (err k m, s)
resolve_phone now new_user new_id subject name (ok phone) s =
    bind_identity now new_user new_id subject phone name
      (find_where (is_subject subject) s.identities) s

unfoldable pub resolve_whatsapp_identity :
    (normalize_phone : String → Result String) (now new_user new_id : ℕ)
    → (external_subject phone_e164 : String) → (display_name : Option String)
    → Exec Accounts (ℕ × ChannelIdentity)
resolve_whatsapp_identity normalize_phone now new_user new_id subject phone name =
    resolve_phone now new_user new_id subject name (normalize_phone phone)

module _ (hash_secret : String → String) where
  abbrev pub has_token : String → ℕ → AuthSession → Bool
  has_token token id s = str_eq s.token_hash (hash_secret token)

  abbrev pub new_session : (now ttl_minutes user : ℕ) → Option ℕ → String → AuthSession
  new_session now ttl_minutes user identity token = record {
    user_id = user;
    channel_identity_id = identity;
    token_hash = hash_secret token;
    expires_at = now + ttl_minutes * 60;
    revoked_at = none;
    last_seen_at = now;
  }

  -- The hash is unique in the table. The token and the time of its expiry come back.
  abbrev pub insert_session : ℕ → AuthSession → Option (ℕ × AuthSession) → Exec Accounts (Unit {0})
  insert_session new_id row (some old) s = (err integrity_error "duplicate key", s)
  insert_session new_id row none s = (ok tt, record s { sessions = put new_id row s.sessions })

  unfoldable pub create_session :
      (now ttl_minutes new_id : ℕ)
      → (token : String) → (user_id : ℕ) → (channel_identity_id : Option ℕ)
      → Exec Accounts (String × ℕ)
  create_session now ttl_minutes new_id token user identity s =
      (insert_session new_id (new_session now ttl_minutes user identity token)
            (find_where (has_token token) s.sessions)
          >>= λ _. pure (token, now + ttl_minutes * 60))
        s

  -- `token_hash=:hash and revoked_at is null and expires_at>now()`
  abbrev pub is_live : (now : ℕ) → String → ℕ → AuthSession → Bool
  is_live now token id s =
      has_token token id s && not (is_some s.revoked_at) && ltb now s.expires_at

  abbrev pub session_row : ℕ → AuthSession → Session
  session_row id row = record {
    id = id;
    user_id = row.user_id;
    channel_identity_id = row.channel_identity_id;
    expires_at = row.expires_at;
  }

  abbrev pub touch : (now : ℕ) → Option (ℕ × AuthSession) → Accounts → Option Session × Accounts
  touch now none s = (none, s)
  touch now (some (id, row)) s = (
    some (session_row id row),
    record s { sessions = put id (record row { last_seen_at = now }) s.sessions },
  )

  unfoldable pub resolve_session :
      (now : ℕ) → (token : String) → Accounts → Option Session × Accounts
  resolve_session now token s =
      if str_eq token "" then (none, s) else touch now (find_where (is_live now token) s.sessions) s

  abbrev pub is_open_token : String → ℕ → AuthSession → Bool
  is_open_token token id s = has_token token id s && not (is_some s.revoked_at)

  abbrev pub revoke : (now : ℕ) → AuthSession → AuthSession
  revoke now s = record s { revoked_at = some now }

  unfoldable pub revoke_session : (now : ℕ) → (token : String) → Accounts → Accounts
  revoke_session now token s = record s {
    sessions = update_where (is_open_token token) (revoke now) s.sessions;
  }

  -- `authorization.lower().startswith('bearer ')` and `authorization.split(' ', 1)[1].strip()` are
  -- `is_bearer` and `bearer_token`, on the text of the header.
  module _ (is_bearer : String → Bool) (bearer_token : String → String) where
    abbrev pub require_resolved : Option Session × Accounts → Result Session × Accounts
    require_resolved (none, s) = (err (http_status 401) "Invalid or expired session", s)
    require_resolved (some session, s) = (ok session, s)

    unfoldable pub require_session :
        (now : ℕ) → (authorization : Option String) → Exec Accounts Session
    unfolding resolve_session
    require_session now none s = (err (http_status 401) "Bearer session required", s)
    require_session now (some header) s =
        if str_eq header "" || not (is_bearer header)
        then (err (http_status 401) "Bearer session required", s)
        else require_resolved (resolve_session now (bearer_token header) s)

    unfoldable pub logout : (now : ℕ) → (authorization : Option String) → Exec Accounts (Unit {0})
    unfolding revoke_session
    logout now none s = (err (http_status 401) "Bearer session required", s)
    logout now (some header) s =
        if str_eq header "" || not (is_bearer header)
        then (err (http_status 401) "Bearer session required", s)
        else (ok tt, revoke_session now (bearer_token header) s)

  -- `POST /identity/whatsapp/bind`: what comes back is the user, the identity, the token and its
  -- expiry.
  unfoldable pub bind_whatsapp :
      (normalize_phone : String → Result String)
      (now ttl_minutes new_user new_identity_id new_session_id : ℕ) (token : String)
      → (external_subject phone_e164 : String) → (display_name : Option String)
      → Exec Accounts (ℕ × ℕ × String × ℕ)
  unfolding resolve_whatsapp_identity create_session
  bind_whatsapp normalize_phone now ttl_minutes new_user new_identity_id new_session_id token
        subject phone name =
      do
        i ←
            resolve_whatsapp_identity normalize_phone now new_user new_identity_id subject phone
              name
        created ← create_session now ttl_minutes new_session_id token i.1.user_id (some i.0)
        pure (i.1.user_id, i.0, created.0, created.1)

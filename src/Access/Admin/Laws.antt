-- ===== src/Access/Admin/Laws.antt =====
-- Who passes as an administrator.
use mathlib.Core.Path.{subst}
use text.Mathlib.Text.{◌==◌ as str_eq}
use text.Mathlib.TextEquality.{eq_iff}
use thuso_wechat_ls.Base.{
  is_some, ◌<◌, ℕ, ◌≡◌, refl, ap, inl, inr, true, false, Option, none, some, String, Bool-cases,
  find, find_where, Stands, find_where-Stands, Result, ok, err, arith,
}
use thuso_wechat_ls.Access.Admin.{
  Admins, AdminUser, AdminSession, AdminRow, Settings, WebRequest, Env, is_live, admin_row, touch,
  resolve_found, resolve_admin_session, token_of, admin_with, known_admin, require_admin,
}

not_some : (o : Option ℕ) → is_some o ≡ false → o ≡ none
not_some none h = refl
not_some (some n) h = absurd (cc h)

row_of : AdminRow → Result AdminRow → AdminRow
row_of d (ok r) = r
row_of d (err k m) = d

module _ (env : Env) (settings : Settings) where
  -- The row is that of a session with this token: neither revoked nor expired, and of an active
  -- administrator.
  pub record IsSignedIn (now : ℕ) (token : String) (s : Admins) (row : AdminRow) : Type 0 where
    pub session : AdminSession
    pub user : AdminUser
    pub stands : Stands row.id session s.sessions
    pub same_token : session.token_hash ≡ env.hash_token token
    pub unrevoked : session.revoked_at ≡ none
    pub unexpired : now < session.expires_at
    pub owner : find session.admin_user_id s.users ≡ some user
    pub active : user.status ≡ "active"
    pub shown : row ≡ admin_row env settings row.id session user

  abbrev Signed : (now : ℕ) → String → Admins → Option AdminRow × Admins → Type 0
  Signed now token s (none, t) = Unit
  Signed now token s (some row, t) = IsSignedIn now token s row

  touch-Signed :
      (now id : ℕ) (token : String) (session : AdminSession) (s : Admins) (u : Option AdminUser)
      → Stands id session s.sessions
      → is_live env settings now token id session ≡ true
      → find session.admin_user_id s.users ≡ u
      → Signed now token s (touch env settings now id session u s)
  touch-Signed now id token session s none st l e = tt
  touch-Signed now id token session s (some u) st l e =
      elim (Bool-cases (str_eq u.status "active")) [
        | inl a ↦ rw a (record {
          session = session;
          user = u;
          stands = st;
          same_token = ground (arith, l, eq_iff session.token_hash (env.hash_token token));
          unrevoked = not_some session.revoked_at (ground (arith, l));
          unexpired = ground (arith, l);
          owner = e;
          active = (eq_iff u.status "active").0 a;
          shown = refl;
        })
        | inr a ↦ rw a tt
      ]

  found-Signed :
      (now : ℕ) (token : String) (s : Admins) (found : Option (ℕ × AdminSession))
      → find_where (is_live env settings now token) s.sessions ≡ found
      → Signed now token s (resolve_found env settings now found s)
  found-Signed now token s none e = tt
  found-Signed now token s (some (id, session)) e =
      let p = find_where-Stands (is_live env settings now token) s.sessions e in
      touch-Signed now id token session s (find session.admin_user_id s.users) p.0 p.1 refl

  resolve-Signed :
      (now : ℕ) (token : String) (s : Admins)
      → Signed now token s (resolve_admin_session env settings now token s)
  unfolding resolve_admin_session
  resolve-Signed now token s =
      found-Signed now token s (find_where (is_live env settings now token) s.sessions) refl

  known-Signed :
      (now : ℕ) (token : String) (s t : Admins) (row : AdminRow) (r : Option AdminRow × Admins)
      → Signed now token s r
      → known_admin env settings r ≡ (ok row, t)
      → IsSignedIn now token s row
  unfolding row_of
  known-Signed now token s t row (none, u) h e = absurd (cc e)
  known-Signed now token s t row (some found, u) h e =
      subst (IsSignedIn now token s)
        (ap (row_of found) (ap (λ (p : Result AdminRow × Admins). p.0) e)) h

  admin-IsSignedIn :
      (now : ℕ) (s t : Admins) (row : AdminRow) (r : Result String)
      → admin_with env settings now r s ≡ (ok row, t)
      → (token : String) × (r ≡ ok token) × IsSignedIn now token s row
  admin-IsSignedIn now s t row (err k m) e = absurd (cc e)
  admin-IsSignedIn now s t row (ok token) e = elim (Bool-cases (str_eq token "")) [
    | inl empty ↦ absurd (cc (rw empty at e))
    | inr full ↦ (
      token,
      refl,
      known-Signed now token s t row (resolve_admin_session env settings now token s)
          (resolve-Signed now token s) (rw full at e),
    )
  ]

  -- A request is let through only with a token, in its cookie or its header, of a session that is
  -- neither revoked nor expired, of an active administrator, and what comes back is that session.
  pub require_admin-IsSignedIn :
      (now : ℕ) (request : WebRequest) (s t : Admins) (row : AdminRow)
      → require_admin env settings now request s ≡ (ok row, t)
      → (token : String) × (token_of env settings request ≡ ok token) × IsSignedIn now token s row
  unfolding require_admin
  require_admin-IsSignedIn now request s t row h =
      admin-IsSignedIn now s t row (token_of env settings request) h

-- ===== src/Access/Sessions/Laws.antt =====
-- What a token opens, and for how long.
use text.Mathlib.Text.{◌==◌ as str_eq}
use text.Mathlib.TextEquality.{eq_iff}
use thuso_wechat_ls.Base.{
  ℕ, ◌+◌, ◌*◌, ◌<◌, ◌≡◌, ◌≢◌, refl, sym, ap, inl, inr, true, Option, none, some, [], ◌∷◌, String,
  Bool-cases, Table, find_where, put, update_where, Result, ok, err, arith,
}
use thuso_wechat_ls.Access.Sessions.{
  Accounts, AuthSession, has_token, new_session, insert_session, create_session, is_live,
  session_row, resolve_session, is_open_token, revoke, revoke_session,
}

shown_text : String → Result (String × ℕ) → String
shown_text d (ok (token, expires)) = token
shown_text d (err k m) = d

module _ (hash_secret : String → String) where
  -- The first row with a token, where the table holds none with it before and a row with it is put.
  find_where-put_live :
      (now : ℕ) (token : String) (id : ℕ) (row : AuthSession) (t : Table AuthSession)
      → find_where (has_token hash_secret token) t ≡ none
      → has_token hash_secret token id row ≡ true
      → is_live hash_secret now token id row ≡ true
      → find_where (is_live hash_secret now token) (put id row t) ≡ some (id, row)
  unfolding find_where put
  find_where-put_live now token id row [] h e l = ground (arith, l)
  find_where-put_live now token id row ((j, w) ∷ t) h e l =
      ground (arith, l, h, find_where-put_live now token id row t)

  resolved :
      (now : ℕ) (token : String) (s : Accounts) (id : ℕ) (row : AuthSession)
      → token ≢ ""
      → find_where (is_live hash_secret now token) s.sessions ≡ some (id, row)
      → (resolve_session hash_secret now token s).0 ≡ some (session_row hash_secret id row)
  unfolding resolve_session
  resolved now token s id row ne e = elim (Bool-cases (str_eq token "")) [
    | inl empty ↦ absurd (ne ((eq_iff token "").0 empty))
    | inr full ↦ rw (full, e) refl
  ]

  -- What a session that was created leaves, and shows.
  created :
      (now ttl_minutes new_id : ℕ) (token : String) (user : ℕ) (identity : Option ℕ)
      (s s' : Accounts) (shown : String × ℕ) (found : Option (ℕ × AuthSession))
      → find_where (has_token hash_secret token) s.sessions ≡ found
      → create_session hash_secret now ttl_minutes new_id token user identity s ≡ (ok shown, s')
      → (find_where (has_token hash_secret token) s.sessions ≡ none)
        × (s'.sessions
            ≡ put new_id (new_session hash_secret now ttl_minutes user identity token) s.sessions)
        × (shown.0 ≡ token)
  unfolding create_session shown_text
  created now ttl new_id token user identity s s' shown (some old) e h =
      absurd (cc (rw (e, insert_session) at h))
  created now ttl new_id token user identity s s' shown none e h =
      let made = rw (e, insert_session) at h in
      (
        e,
        sym (ap (λ (p : Result (String × ℕ) × Accounts). p.1.sessions) made),
        sym (ap (λ (p : Result (String × ℕ) × Accounts). shown_text token p.0) made),
      )

  -- A session that was created is found by its token until it expires, as the session of its user.
  pub resolve_session-create_session :
      (now ttl_minutes new_id : ℕ) (token : String) (user : ℕ) (identity : Option ℕ)
      (s s' : Accounts) (shown : String × ℕ) (later : ℕ)
      → token ≢ ""
      → create_session hash_secret now ttl_minutes new_id token user identity s ≡ (ok shown, s')
      → later < now + ttl_minutes * 60
      → (resolve_session hash_secret later shown.0 s').0
        ≡ some (
            session_row hash_secret new_id
              (new_session hash_secret now ttl_minutes user identity token))
  resolve_session-create_session now ttl new_id token user identity s s' shown later ne h lt =
      let (free, rows, same) =
        created now ttl new_id token user identity s s' shown
          (find_where (has_token hash_secret token) s.sessions) refl h in
      rw same (
        resolved later token s' new_id (new_session hash_secret now ttl user identity token) ne (
          rw rows (
            find_where-put_live later token new_id
              (new_session hash_secret now ttl user identity token) s.sessions free
              (ground (arith, eq_iff (hash_secret token) (hash_secret token)))
              (ground (arith, eq_iff (hash_secret token) (hash_secret token), lt)))))

  none_live :
      (now at : ℕ) (token : String) (t : Table AuthSession)
      → find_where
          (is_live hash_secret at token)
          (update_where (is_open_token hash_secret token) (revoke hash_secret now) t)
        ≡ none
  unfolding find_where update_where
  none_live now at token [] = refl
  none_live now at token ((j, w) ∷ t) = ground (arith, none_live now at token t)

  -- Once a token is revoked it opens no session, at no time, until one is created with it again.
  resolve_session-revoke_session :
      (now later : ℕ) (token : String) (s : Accounts)
      → resolve_session hash_secret later token (revoke_session hash_secret now token s)
        ≡ (none, revoke_session hash_secret now token s)
  unfolding resolve_session revoke_session
  resolve_session-revoke_session now later token s = elim (Bool-cases (str_eq token "")) [
    | inl e ↦ rw e refl
    | inr e ↦ rw (e, none_live now later token s.sessions) refl
  ]

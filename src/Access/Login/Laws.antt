-- ===== src/Access/Login/Laws.antt =====
-- Failed logins, and the lock after five of them.
use text.Mathlib.Text.{◌==◌ as str_eq}
use text.Mathlib.TextEquality.{eq_iff}
use thuso_wechat_ls.Base.{
  ℕ, ◌+◌, ◌<◌, ◌≡◌, refl, inl, inr, true, false, none, some, List, [], ◌∷◌, String, Bool-cases, leb,
  Table, find_where, put, Exec, ok, err, arith, http_status, length, AllOf,
}
use thuso_wechat_ls.Access.Admin.{Admins, AdminUser, Settings, WebRequest, Env}
use thuso_wechat_ls.Access.Login.{
  login, login_email, login_found, has_email, is_locked, count_failure, set_user, LoginAnswer,
}

-- The row of an email, after that row was replaced under the same email.
find_where-put_email :
    (email : String) (id : ℕ) (u v : AdminUser) (t : Table AdminUser) (env : Env)
    (settings : Settings)
    → find_where (has_email env settings email) t ≡ some (id, u)
    → str_eq v.email email ≡ true
    → find_where (has_email env settings email) (put id v t) ≡ some (id, v)
unfolding find_where put
find_where-put_email email id u v [] env settings h e = absurd (cc h)
find_where-put_email email id u v ((j, w) ∷ t) env settings h e =
    ground (arith, h, e, find_where-put_email email id u v t env settings)

-- A login as it was sent: when, with which fresh identifiers, and with which password.
pub record Attempt : Type 0 where
  pub at_time : ℕ
  pub new_session_id : ℕ
  pub token : String
  pub csrf : String
  pub password : String
  pub request : WebRequest

module _ (env : Env) (settings : Settings) (typed email : String) where
  abbrev pub try_login : Attempt → Exec Admins LoginAnswer
  try_login a =
      login env settings a.at_time a.new_session_id a.token a.csrf typed a.password a.request

  -- The tables after some logins.
  pub after_logins : List Attempt → Admins → Admins
  after_logins [] s = s
  after_logins (a ∷ l) s = after_logins l (try_login a s).1

  abbrev pub IsWrong : AdminUser → Attempt → Type 0
  IsWrong u a = env.verify_password a.password u.password_hash ≡ false

  -- The account of the email, in these tables.
  abbrev pub Holds : Admins → ℕ → AdminUser → Type 0
  Holds s id u = find_where (has_email env settings email) s.users ≡ some (id, u)

  failed_login :
      (a : Attempt) (s : Admins) (id : ℕ) (u : AdminUser)
      → env.normalise_email typed ≡ ok email
      → Holds s id u
      → is_locked env settings a.at_time u ≡ false
      → IsWrong u a
      → (try_login a s).1 ≡ set_user env settings id (count_failure env settings a.at_time u) s
  unfolding login
  failed_login a s id u n h open_ wrong = rw (n, login_email, h, login_found, open_, wrong) refl

  failed_row :
      (a : Attempt) (s : Admins) (id : ℕ) (u : AdminUser)
      → env.normalise_email typed ≡ ok email
      → str_eq u.email email ≡ true
      → Holds s id u
      → is_locked env settings a.at_time u ≡ false
      → IsWrong u a
      → Holds (try_login a s).1 id (count_failure env settings a.at_time u)
  failed_row a s id u n same h open_ wrong = rw (failed_login a s id u n h open_ wrong) (
      find_where-put_email email id u (count_failure env settings a.at_time u) s.users env settings
        h
        (elim (Bool-cases (leb 5 (u.failed_login_attempts + 1))) [
          | inl e ↦ rw e same
          | inr e ↦ rw e same
        ]))

  abbrev one_more : AdminUser → AdminUser
  one_more u = record u { failed_login_attempts = u.failed_login_attempts + 1 }

  count_below :
      (now : ℕ) (u : AdminUser)
      → u.failed_login_attempts < 4
      → count_failure env settings now u ≡ one_more u
  count_below now u h = ground (arith, h)

  -- After the last of five failures in a row.
  locked_row :
      (tries : List Attempt) (last : Attempt) (s : Admins) (id : ℕ) (u : AdminUser)
      → env.normalise_email typed ≡ ok email
      → str_eq u.email email ≡ true
      → Holds s id u
      → u.locked_until ≡ none
      → u.failed_login_attempts + length tries ≡ 4
      → AllOf (IsWrong u) tries
      → IsWrong u last
      → (v : AdminUser) × Holds (try_login last (after_logins tries s)).1 id v
        × (v.locked_until ≡ some (last.at_time + 900))
  unfolding after_logins
  locked_row [] last s id u n same h free few all wrong =
      let open_ : is_locked env settings last.at_time u ≡ false = ground (arith, free) in
      (
        count_failure env settings last.at_time u,
        failed_row last s id u n same h open_ wrong,
        ground (arith, few),
      )
  locked_row (a ∷ tries) last s id u n same h free few all wrong =
      let open_ : is_locked env settings a.at_time u ≡ false = ground (arith, free) in
      let counted : count_failure env settings a.at_time u ≡ one_more u =
        count_below a.at_time u (omega (arith, few)) in
      locked_row tries last (try_login a s).1 id (one_more u) n same
        (rw counted at (failed_row a s id u n same h open_ all.0)) free (omega (arith, few)) all.1
        wrong

  locked_login :
      (a : Attempt) (s : Admins) (id : ℕ) (u : AdminUser)
      → env.normalise_email typed ≡ ok email
      → Holds s id u
      → is_locked env settings a.at_time u ≡ true
      → try_login a s ≡ (err (http_status 423) "Admin account temporarily locked", s)
  unfolding login
  locked_login a s id u n h shut = rw (n, login_email, h, login_found, shut) refl

  -- Four failed logins to an account, then a fifth, lock it for 15 minutes after the last: till then
  -- no login goes through, also with the right password, and nothing is changed.
  pub login_locks :
      (tries : List Attempt) (last later : Attempt) (s : Admins) (id : ℕ) (u : AdminUser)
      → env.normalise_email typed ≡ ok email
      → u.email ≡ email
      → Holds s id u
      → u.locked_until ≡ none
      → u.failed_login_attempts + length tries ≡ 4
      → AllOf (IsWrong u) tries
      → IsWrong u last
      → later.at_time < last.at_time + 900
      → try_login later (try_login last (after_logins tries s)).1 ≡ (
        err (http_status 423) "Admin account temporarily locked",
        (try_login last (after_logins tries s)).1,
      )
  login_locks tries last later s id u n same h free few all wrong soon =
      let (v, held, until) =
        locked_row tries last s id u n ((eq_iff u.email email).1 same) h free few all wrong in
      locked_login later (try_login last (after_logins tries s)).1 id v n held
        (ground (arith, until, soon))

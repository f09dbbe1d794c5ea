-- ===== src/Access/Otp/Laws.antt =====
-- How often a code can be tried, and used.
use text.Mathlib.Text.{◌==◌ as str_eq}
use thuso_wechat_ls.Base.{
  ℕ, suc, ◌+◌, ◌≤◌, ◌<◌, ◌≡◌, refl, ◌⊎◌, inl, inr, Bool, true, false, some, List, [], ◌∷◌, String,
  Bool-cases, leb, is_some, if◌then◌else◌, Table, find, find-put_self, length, AllOf, arith,
}
use thuso_wechat_ls.Access.Otp.{
  OtpChallenge, verify_otp, verify_row, is_closed, attempted, consumed,
}

module _ (hash_secret strip : String → String) (otp_ttl_seconds otp_max_attempts : ℕ) where
  -- A row of verifications of one challenge, at the times and with the codes of the list: what
  -- each answers, and the table after them.
  pub verify_all :
      (id : ℕ) → List (ℕ × String) → Table OtpChallenge → List Bool × Table OtpChallenge
  unfolding verify_otp
  verify_all id [] t = ([], t)
  verify_all id ((now, code) ∷ tries) t =
      let (b, t') = verify_otp hash_secret strip otp_ttl_seconds otp_max_attempts now id code t in
      let (l, t'') = verify_all id tries t' in (b ∷ l, t'')

  -- The answers that let the caller in.
  pub count_accepted : List Bool → ℕ
  count_accepted [] = 0
  count_accepted (true ∷ l) = suc (count_accepted l)
  count_accepted (false ∷ l) = count_accepted l

  -- One verification of a challenge that is there: its row after it, and what the answer says.
  record IsVerified (now id : ℕ) (code : String) (c : OtpChallenge) (r : Bool × Table OtpChallenge)
      : Type 0 where
    row : OtpChallenge
    stands : find id r.1 ≡ some row
    same_limit : row.max_attempts ≡ c.max_attempts
    same_expiry : row.expires_at ≡ c.expires_at
    same_hash : row.code_hash ≡ c.code_hash
    accepts_fresh : r.0 ≡ true → (is_some c.consumed_at ≡ false) × (is_some row.consumed_at ≡ true)
    refuses : r.0 ≡ false → row.consumed_at ≡ c.consumed_at
    counts_wrong :
        leb c.expires_at now ≡ false
        → str_eq c.code_hash (hash_secret (strip code)) ≡ false
        → is_some c.consumed_at ≡ false
        → c.attempts < c.max_attempts
        → row.attempts ≡ c.attempts + 1
    never_fewer : c.attempts ≤ row.attempts
    stays_consumed : is_some c.consumed_at ≡ true → is_some row.consumed_at ≡ true

  verify_row-IsVerified :
      (now id : ℕ) (code : String) (c : OtpChallenge) (t : Table OtpChallenge)
      → find id t ≡ some c
      → IsVerified now id code c
          (verify_row hash_secret strip otp_ttl_seconds otp_max_attempts now id code (some c) t)
  verify_row-IsVerified now id code c t e =
      elim (Bool-cases (is_closed hash_secret strip otp_ttl_seconds otp_max_attempts now c)) [
        | inl closed ↦ rw closed (record {
          row = c;
          stands = e;
          same_limit = refl;
          same_expiry = refl;
          same_hash = refl;
          accepts_fresh = λ h. absurd (cc h);
          refuses = λ h. refl;
          counts_wrong = λ a b d f. absurd (ground (arith, closed, a, d, f));
          never_fewer = omega arith;
          stays_consumed = λ h. h;
        })
        | inr open_ ↦ elim (Bool-cases (str_eq c.code_hash (hash_secret (strip code)))) [
          | inl right ↦
              rw (open_, right)
                (record {
                  row =
                      consumed hash_secret strip otp_ttl_seconds otp_max_attempts now
                        (attempted hash_secret strip otp_ttl_seconds otp_max_attempts c);
                  stands = find-put_self id _ t;
                  same_limit = refl;
                  same_expiry = refl;
                  same_hash = refl;
                  accepts_fresh = λ h. (ground (arith, open_), refl);
                  refuses = λ h. absurd (cc h);
                  counts_wrong = λ a b d f. refl;
                  never_fewer = omega arith;
                  stays_consumed = λ h. refl;
                })
          | inr wrong ↦
              rw (open_, wrong)
                (record {
                  row = attempted hash_secret strip otp_ttl_seconds otp_max_attempts c;
                  stands = find-put_self id _ t;
                  same_limit = refl;
                  same_expiry = refl;
                  same_hash = refl;
                  accepts_fresh = λ h. absurd (cc h);
                  refuses = λ h. refl;
                  counts_wrong = λ a b d f. refl;
                  never_fewer = omega arith;
                  stays_consumed = λ h. h;
                })
        ]
      ]

  verify_otp-IsVerified :
      (now id : ℕ) (code : String) (c : OtpChallenge) (t : Table OtpChallenge)
      → find id t ≡ some c
      → IsVerified now id code c
          (verify_otp hash_secret strip otp_ttl_seconds otp_max_attempts now id code t)
  unfolding verify_otp
  verify_otp-IsVerified now id code c t e = rw e (verify_row-IsVerified now id code c t e)

  -- What may still be accepted: one code, and none once one is consumed.
  abbrev Left : OtpChallenge → ℕ → Type 0
  Left c n = n ≤ (if is_some c.consumed_at then 0 else 1)

  Left-step :
      (now id : ℕ) (code : String) (c : OtpChallenge) (b : Bool) (t : Table OtpChallenge)
      (l : List Bool)
      → (v : IsVerified now id code c (b, t)) → Left v.row (count_accepted l)
      → Left c (count_accepted (b ∷ l))
  unfolding count_accepted
  Left-step now id code c true t l v h = ground (arith, v.accepts_fresh refl, h)
  Left-step now id code c false t l v h = rw (← v.refuses refl) h

  verify_all-Left :
      (id : ℕ) (tries : List (ℕ × String)) (t : Table OtpChallenge) (c : OtpChallenge)
      → find id t ≡ some c
      → Left c (count_accepted (verify_all id tries t).0)
  unfolding verify_all count_accepted
  verify_all-Left id [] t c e = omega arith
  verify_all-Left id ((now, code) ∷ tries) t c e =
      let v = verify_otp-IsVerified now id code c t e in
      Left-step now id code c _ _ _ v (
        verify_all-Left id tries
          (verify_otp hash_secret strip otp_ttl_seconds otp_max_attempts now id code t).1 v.row
          v.stands)

  -- However often a code is verified, and whatever is tried, it is accepted at most once.
  pub verify_otp_once :
      (id : ℕ) (tries : List (ℕ × String)) (t : Table OtpChallenge) (c : OtpChallenge)
      → find id t ≡ some c
      → count_accepted (verify_all id tries t).0 ≤ 1
  verify_otp_once id tries t c e = ground (arith, verify_all-Left id tries t c e)

  -- A try in time, with a code that is not the one that was sent.
  abbrev pub IsWrong : OtpChallenge → ℕ × String → Type 0
  IsWrong c (now, code) =
      (leb c.expires_at now ≡ false) × (str_eq c.code_hash (hash_secret (strip code)) ≡ false)

  AllWrong-same :
      (c d : OtpChallenge) (tries : List (ℕ × String))
      → d.expires_at ≡ c.expires_at
      → d.code_hash ≡ c.code_hash
      → AllOf (IsWrong c) tries
      → AllOf (IsWrong d) tries
  AllWrong-same c d [] e f h = tt
  AllWrong-same c d ((now, code) ∷ tries) e f h =
      ((rw e h.0.0, rw f h.0.1), AllWrong-same c d tries e f h.1)

  -- The challenge is used up, once so many more tries have been made.
  abbrev IsSpent : OtpChallenge → ℕ → Type 0
  IsSpent c more = (is_some c.consumed_at ≡ true) ⊎ (c.max_attempts ≤ c.attempts + more)

  IsSpent-step :
      (now id : ℕ) (code : String) (c : OtpChallenge) (r : Bool × Table OtpChallenge) (more : ℕ)
      → (v : IsVerified now id code c r) → IsWrong c (now, code)
      → IsSpent c (suc more)
      → IsSpent v.row more
  IsSpent-step now id code c r more v w (inl used) = inl (v.stays_consumed used)
  IsSpent-step now id code c r more v w (inr full) = elim (Bool-cases (is_some c.consumed_at)) [
    | inl used ↦ inl (v.stays_consumed used)
    | inr fresh ↦ inr (
        ground
          (arith, full, fresh, w.0, w.1, v.counts_wrong w.0 w.1 fresh, v.never_fewer, v.same_limit))
  ]

  spent_refused :
      (now id : ℕ) (code : String) (c : OtpChallenge) (t : Table OtpChallenge)
      → find id t ≡ some c
      → IsSpent c 0
      → (verify_otp hash_secret strip otp_ttl_seconds otp_max_attempts now id code t).0 ≡ false
  unfolding verify_otp
  spent_refused now id code c t e (inl used) = rw (e, verify_row) (ground (arith, used))
  spent_refused now id code c t e (inr full) = rw (e, verify_row) (ground (arith, full))

  spent_after :
      (id : ℕ) (tries : List (ℕ × String)) (t : Table OtpChallenge) (c : OtpChallenge) (later : ℕ)
      (code : String)
      → find id t ≡ some c
      → AllOf (IsWrong c) tries
      → IsSpent c (length tries)
      → (verify_otp hash_secret strip otp_ttl_seconds otp_max_attempts later id code
          (verify_all id tries t).1).0
        ≡ false
  unfolding verify_all
  spent_after id [] t c later code e w h = spent_refused later id code c t e h
  spent_after id ((now, attempt) ∷ tries) t c later code e w h =
      let v = verify_otp-IsVerified now id attempt c t e in
      spent_after id tries
        (verify_otp hash_secret strip otp_ttl_seconds otp_max_attempts now id attempt t).1 v.row
        later code v.stands (AllWrong-same c v.row tries v.same_expiry v.same_hash w.1)
        (IsSpent-step now id attempt c _ (length tries) v w.0 h)

  -- Wrong codes in time use a challenge up: after as many of them as it has attempts, no code is
  -- accepted any more, at no time, and not even the right one.
  pub verify_otp_locks :
      (id : ℕ) (tries : List (ℕ × String)) (t : Table OtpChallenge) (c : OtpChallenge) (later : ℕ)
      (code : String)
      → find id t ≡ some c
      → AllOf (IsWrong c) tries
      → c.max_attempts ≤ c.attempts + length tries
      → (verify_otp hash_secret strip otp_ttl_seconds otp_max_attempts later id code
          (verify_all id tries t).1).0
        ≡ false
  verify_otp_locks id tries t c later code e w h = spent_after id tries t c later code e w (inr h)

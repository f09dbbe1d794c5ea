-- ===== src/Finance/Payments/Laws.antt =====
-- Payments are paid once, a reference stands for one payment, and an intent respects the limits.
use text.Mathlib.TextEquality.{eq_iff}
use thuso_wechat_ls.Base.{
  ℕ, ◌+◌, ◌≤◌, ◌<◌, ◌≡◌, refl, ap, ◌∙◌, ◌⊎◌, Bool-cases, leb, true, Option, none, some, String,
  arith, if◌then◌else◌, ok, err, find, find_where, update_row, Option-cases, inl, inr,
  find-put_self, find_where-put, sum_by-put_new, financial_error, payment_error,
}
use thuso_wechat_ls.Base.Int.{ℤ, ltb_ℤ, pos, negsuc, ◌+ℤ◌, ◌≤ℤ◌, +ℤ_parts}
use thuso_wechat_ls.Money.{Decimal, money}
use thuso_wechat_ls.Finance.Books.{Books, Payment, PaymentStatus, RiskLimits}
use thuso_wechat_ls.Finance.Payments.{
  authorize_payment, capture_payment, mark_paid, create_payment, create_payment_intent,
  enforce_risk_limit, insert_payment, insert_checked, has_reference, new_payment, daily_total,
  daily_count, check_limits, is_daily,
}

-- After a capture has returned a payment, that payment stands as paid under its identifier, and
-- authorizing, capturing or marking it paid once more is refused and changes nothing.
pub capture_payment_once :
    (id : ℕ) (r v : Option String) (w : String) (s : Books) {p : Payment}
    → (capture_payment id r s).0 ≡ ok p
    → let s' = (capture_payment id r s).1 in
      (find id s'.payments ≡ some p)
      × (p.status ≡ PaymentStatus.paid)
      × (authorize_payment id w s' ≡ (err financial_error "payment cannot be authorized", s'))
      × (capture_payment id v s' ≡ (err financial_error "payment cannot be captured", s'))
      × (mark_paid id v s' ≡ (err payment_error "payment cannot be marked paid", s'))
unfolding capture_payment authorize_payment mark_paid update_row
capture_payment_once id r v w s {p} h = ground (arith, find-put_self id p s.payments)

insert_payment_idem :
    (id i : ℕ) (p q : Payment) (s : Books) {e : ℕ × Payment}
    → q.reference ≡ p.reference
    → (insert_payment id p s).0 ≡ ok e
    → insert_payment i q (insert_payment id p s).1 ≡ (ok e, (insert_payment id p s).1)
unfolding insert_payment
insert_payment_idem id i p q s {e} same h =
    elim (Option-cases (find_where (has_reference p.reference) s.payments)) [
      | inl free ↦ rw same (
          ground (
            arith,
            free,
            find_where-put (has_reference p.reference) id p s.payments free
                ((eq_iff p.reference p.reference).1 refl),
          ))
      | inr (x, found) ↦ rw same (ground (arith, found))
    ]

-- Creating a payment under a reference that a payment already has returns that payment and changes
-- nothing, whatever the user, the amount and the currency of the second call.
create_payment_idem :
    (now later id i u v : ℕ) (x : ℤ) (y : ℕ) (ref : String) (q r : Option ℕ) (c d : String)
    (s : Books) {p : ℕ × Payment}
    → (create_payment now id u x ref q c s).0 ≡ ok p
    → create_payment later i v (pos y) ref r d (create_payment now id u x ref q c s).1
      ≡ (ok p, (create_payment now id u x ref q c s).1)
unfolding create_payment
create_payment_idem now later id i u v (negsuc x) y ref q r c d s h = ground arith
create_payment_idem now later id i u v (pos x) y ref q r c d s {p} h =
    insert_payment_idem id i (new_payment now u q ref x c none) (new_payment later v r ref y d none)
      s refl h

check_limits_sound :
    (t n : ℕ) (x : ℤ) (l : RiskLimits) (s : Books)
    → l.enabled ≡ true
    → (check_limits t n x l s).0 ≡ ok tt
    → (x ≤ℤ pos l.max_transaction_amount)
      × (pos t +ℤ x ≤ℤ pos l.max_daily_amount)
      × (n < l.max_daily_count)
unfolding check_limits
check_limits_sound t n x l s on h = ground arith

check_limits-cases :
    (t n : ℕ) (x : ℤ) (l : RiskLimits) (s : Books)
    → (check_limits t n x l s ≡ (ok tt, s))
      ⊎ ((m : String) × (check_limits t n x l s ≡ (err financial_error m, s)))
unfolding check_limits
check_limits-cases t n x l s = elim (Bool-cases l.enabled) [
  | inr off ↦ inl (ground arith)
  | inl on ↦ elim (Bool-cases (ltb_ℤ (pos l.max_transaction_amount) x)) [
    | inl over ↦ inr ("transaction exceeds maximum", ground arith)
    | inr fits ↦ elim (Bool-cases (ltb_ℤ (pos l.max_daily_amount) (pos t +ℤ x))) [
      | inl over ↦ inr ("daily transaction limit exceeded", ground arith)
      | inr small ↦ elim (Bool-cases (leb l.max_daily_count n)) [
        | inl many ↦ inr ("daily transaction count exceeded", ground arith)
        | inr few ↦ inl (ground arith)
      ]
    ]
  ]
]

daily_after_insert :
    (today now id u x m k : ℕ) (ref : String) (q : Option ℕ) (c : String) (key : Option String)
    (s : Books) {p : ℕ × Payment}
    → today ≤ now
    → find id s.payments ≡ none
    → daily_total today u s.payments + x ≤ m
    → daily_count today u s.payments < k
    → (insert_checked now id u (pos x) ref q c key s).0 ≡ ok p
    → (daily_total today u (insert_checked now id u (pos x) ref q c key s).1.payments ≤ m)
      × (daily_count today u (insert_checked now id u (pos x) ref q c key s).1.payments ≤ k)
unfolding insert_checked insert_payment
daily_after_insert today now id u x m k ref q c key s time fresh total count h = ground (
  arith,
  sum_by-put_new (λ p. if is_daily today u p then p.amount else 0) id
      (new_payment now u q ref x c key) s.payments fresh,
  sum_by-put_new (λ p. if is_daily today u p then 1 else 0) id (new_payment now u q ref x c key)
      s.payments fresh,
)

intent_after_check :
    (today now id u : ℕ) (x : ℤ) (ref : String) (q : Option ℕ) (c : String) (key : Option String)
    (s : Books) (l : RiskLimits) {p : ℕ × Payment}
    → today ≤ now
    → find id s.payments ≡ none
    → pos (daily_total today u s.payments) +ℤ x ≤ℤ pos l.max_daily_amount
    → daily_count today u s.payments < l.max_daily_count
    → (insert_checked now id u x ref q c key s).0 ≡ ok p
    → let s' = (insert_checked now id u x ref q c key s).1 in
      (daily_total today u s'.payments ≤ l.max_daily_amount)
      × (daily_count today u s'.payments ≤ l.max_daily_count)
intent_after_check today now id u (pos x) ref q c key s l time fresh total count h =
    daily_after_insert today now id u x l.max_daily_amount l.max_daily_count ref q c key s time
      fresh (omega (arith, +ℤ_parts (pos (daily_total today u s.payments)) (pos x))) count h
intent_after_check today now id u (negsuc x) ref q c key s l time fresh total count h =
    absurd (unfold insert_checked in ground arith)

enforce_risk_limit_found :
    (today u : ℕ) (x : Decimal) (s : Books) (l : RiskLimits)
    → s.risk_limits ≡ some l
    → enforce_risk_limit today u x s
      ≡ check_limits (daily_total today u s.payments) (daily_count today u s.payments) (money x) l s
unfolding enforce_risk_limit
enforce_risk_limit_found today u x s l row = ground (arith, row)

-- Where the limits are enabled, the clock is not before the start of the day and the identifier of
-- the new row is free, a payment intent that is accepted leaves the user's total of the day and
-- number of payments of the day within the limits, and its own amount within the maximum.
pub create_payment_intent_within_limits :
    (today now id u : ℕ) (x : Decimal) (ref : String) (q : Option ℕ) (c : String)
    (key : Option String) (s : Books) (l : RiskLimits) {p : ℕ × Payment}
    → s.risk_limits ≡ some l
    → l.enabled ≡ true
    → today ≤ now
    → find id s.payments ≡ none
    → (create_payment_intent now today id u x ref q c key s).0 ≡ ok p
    → let s' = (create_payment_intent now today id u x ref q c key s).1 in
      (daily_total today u s'.payments ≤ l.max_daily_amount)
      × (daily_count today u s'.payments ≤ l.max_daily_count)
      × (money x ≤ℤ pos l.max_transaction_amount)
unfolding create_payment_intent
create_payment_intent_within_limits today now id u x ref q c key s l row on time fresh h =
    let t = daily_total today u s.payments in
    let n = daily_count today u s.payments in
    let limits = enforce_risk_limit_found today u x s l row in
    elim (check_limits-cases t n (money x) l s) [
      | inl passed ↦
          let sound = check_limits_sound t n (money x) l s on (ap (λ r. r.0) passed) in
          let after =
            intent_after_check today now id u (money x) ref q c key s l time fresh sound.1 sound.2
              (rw (limits ∙ passed) at h) in
          rw (limits ∙ passed) (after.0, after.1, sound.0)
      | inr (m, refused) ↦ cc (rw (limits ∙ refused) at h)
    ]

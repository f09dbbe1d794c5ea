-- ===== src/Finance/Payments.antt =====
-- Payments: the intent, authorization and capture of app/services/financial.py, and
-- `create_payment` and `mark_paid` of app/services/payments.py. `now` and `current_date` are the
-- database's clock, in seconds; `new_id` is the identifier that the database generates.
pub mod Laws
mod Tests
use text.Mathlib.Text.{◌==◌ as str_eq}
use thuso_wechat_ls.Base.{
  ℕ, ◌+◌, Bool, true, false, ◌&&◌, not, Option, none, some, List, [], ◌∷◌, String, ◌==◌, ltb, leb,
  if◌then◌else◌, Table, Exec, ok, err, ◌>>=◌, ◌>>◌, raise_if, put, find_where, update_row,
  commit_row, sum_by, financial_error, payment_error, integrity_error, no_result_found,
}
use thuso_wechat_ls.Base.Int.{ℤ, pos, negsuc, ltb_ℤ, ◌+ℤ◌}
use thuso_wechat_ls.Money.{Decimal, money}
use thuso_wechat_ls.Finance.Books.{
  Books, Payment, PaymentStatus, RiskLimits, is_payable, is_pending, counts_today,
}

-- `user_id=:uid and created_at>=current_date and status not in ('failed','cancelled')`
abbrev pub is_daily : (current_date user_id : ℕ) → Payment → Bool
is_daily current_date user_id p =
    p.user_id == user_id && (leb current_date p.created_at && counts_today p.status)

-- `coalesce(sum(amount),0)` and `count(*)` of the day.
abbrev pub daily_total : (current_date user_id : ℕ) → Table Payment → ℕ
daily_total current_date user_id =
    sum_by (λ p. if is_daily current_date user_id p then p.amount else 0)

abbrev pub daily_count : (current_date user_id : ℕ) → Table Payment → ℕ
daily_count current_date user_id = sum_by (λ p. if is_daily current_date user_id p then 1 else 0)

-- The three tests against the limits, where they are enabled.
check_limits : (total count : ℕ) → ℤ → RiskLimits → Exec Books (Unit {0})
check_limits total count amount l s =
    if not l.enabled
    then (ok tt, s)
    else if ltb_ℤ (pos l.max_transaction_amount) amount
    then (err financial_error "transaction exceeds maximum", s)
    else if ltb_ℤ (pos l.max_daily_amount) (pos total +ℤ amount)
    then (err financial_error "daily transaction limit exceeded", s)
    else if leb l.max_daily_count count
    then (err financial_error "daily transaction count exceeded", s)
    else (ok tt, s)

pub enforce_risk_limit : (current_date user_id : ℕ) → Decimal → Exec Books (Unit {0})
unfolding check_limits
enforce_risk_limit current_date user_id amount s = elim s.risk_limits [
  | none ↦ (err no_result_found "No row was found when one was required", s)
  | some l ↦
      check_limits (daily_total current_date user_id s.payments)
        (daily_count current_date user_id s.payments) (money amount) l s
]

abbrev pub same_text : Option String → String → Bool
same_text none t = false
same_text (some x) t = str_eq x t

-- The unique index on the idempotency key, where a key is given.
abbrev pub key_taken : Option String → Table Payment → Bool
key_taken none t = false
key_taken (some k) t = elim (find_where (λ _ p. same_text p.idempotency_key k) t) [
  | none ↦ false
  | some _ ↦ true
]

-- `reference=:ref`
abbrev pub has_reference : String → ℕ → Payment → Bool
has_reference reference _ p = str_eq p.reference reference

-- `insert into payments ... on conflict(reference) do update set reference=excluded.reference
-- returning *`: a payment that has the reference comes back as it is.
insert_payment : ℕ → Payment → Exec Books (ℕ × Payment)
insert_payment new_id p s = elim (find_where (has_reference p.reference) s.payments) [
  | some (id, q) ↦ (ok (id, q), s)
  | none ↦
      if key_taken p.idempotency_key s.payments
      then (err integrity_error "payments_idempotency_uq", s)
      else (ok (new_id, p), record s { payments = put new_id p s.payments })
]

abbrev pub new_payment :
    (now user_id : ℕ) → Option ℕ → String → ℕ → String → Option String → Payment
new_payment now user_id request_id reference amount currency key = record {
  user_id = user_id;
  service_request_id = request_id;
  reference = reference;
  provider_reference = none;
  amount = amount;
  refunded_amount = 0;
  currency = currency;
  status = PaymentStatus.pending;
  idempotency_key = key;
  created_at = now;
}

-- The insertion behind the column's check `amount >= 0`.
insert_checked :
    (now new_id user_id : ℕ)
    → ℤ
    → String
    → Option ℕ
    → String
    → Option String
    → Exec Books (ℕ × Payment)
unfolding insert_payment
insert_checked now new_id user_id (pos amount) reference request_id currency key s =
    insert_payment new_id (new_payment now user_id request_id reference amount currency key) s
insert_checked now new_id user_id (negsuc _) reference request_id currency key s =
    (err integrity_error "payments_amount_check", s)

pub create_payment_intent :
    (now current_date new_id user_id : ℕ)
    → Decimal
    → String
    → Option ℕ
    → String
    → Option String
    → Exec Books (ℕ × Payment)
create_payment_intent now current_date new_id user_id amount reference request_id currency key = do
  enforce_risk_limit current_date user_id amount
  insert_checked now new_id user_id (money amount) reference request_id currency key

-- `create_payment`, which tests no limit.
pub create_payment :
    (now new_id user_id : ℕ) → ℤ → String → Option ℕ → String → Exec Books (ℕ × Payment)
unfolding insert_checked
create_payment now new_id user_id amount reference request_id currency =
    insert_checked now new_id user_id amount reference request_id currency none

pub authorize_payment : (payment_id : ℕ) → String → Exec Books Payment
authorize_payment payment_id provider_reference s =
    commit_row
      (update_row payment_id (λ p. is_pending p.status)
        (λ p. record p {
          status = PaymentStatus.authorized;
          provider_reference = some provider_reference;
        })
        s.payments)
      (λ t b. record b { payments = t }) financial_error "payment cannot be authorized" s

-- `coalesce(:ref,provider_reference)`
abbrev pub coalesce : Option String → Option String → Option String
coalesce none old = old
coalesce (some r) old = some r

abbrev pub pay : Option String → Payment → Payment
pay provider_reference p = record p {
  status = PaymentStatus.paid;
  provider_reference = coalesce provider_reference p.provider_reference;
}

pub capture_payment : (payment_id : ℕ) → Option String → Exec Books Payment
capture_payment payment_id provider_reference s =
    commit_row
      (update_row payment_id (λ p. is_payable p.status) (pay provider_reference) s.payments)
      (λ t b. record b { payments = t }) financial_error "payment cannot be captured" s

pub mark_paid : (payment_id : ℕ) → Option String → Exec Books Payment
mark_paid payment_id provider_reference s =
    commit_row
      (update_row payment_id (λ p. is_payable p.status) (pay provider_reference) s.payments)
      (λ t b. record b { payments = t }) payment_error "payment cannot be marked paid" s

-- ===== src/Finance/Payments/Tests.antt =====
-- Runs of the payment functions.
use thuso_wechat_ls.Base.{
  ◌≤◌, ◌≡◌, refl, true, none, some, arith, find, put, update_row, find_where, err, financial_error,
  payment_error,
}
use thuso_wechat_ls.Base.Int.{pos, ◌+ℤ◌, ◌*ℤ◌, ◌≤ℤ◌}
use thuso_wechat_ls.Money.{money, quantize, round_half_up}
use thuso_wechat_ls.Finance.Books.{Books, PaymentStatus, RiskLimits}
use thuso_wechat_ls.Finance.Samples.{payment_of, with_payment}
use thuso_wechat_ls.Finance.Payments.{
  capture_payment, authorize_payment, mark_paid, create_payment_intent, enforce_risk_limit,
  check_limits, insert_checked, insert_payment, daily_total, daily_count, new_payment,
}
use thuso_wechat_ls.Finance.Payments.Laws.{
  capture_payment_once, create_payment_intent_within_limits,
}

abbrev limits : RiskLimits
limits = record {
  max_transaction_amount = 100000;
  max_daily_amount = 200000;
  max_daily_count = 5;
  enabled = true;
}

abbrev limited : Books
limited = record (with_payment PaymentStatus.paid 2500) { risk_limits = some limits }

capture_payment_once_example :
    let s' = (capture_payment 7 none (with_payment PaymentStatus.authorized 2500)).1 in
    (find 7 s'.payments ≡ some (payment_of PaymentStatus.paid 2500))
    × ((payment_of PaymentStatus.paid 2500).status ≡ PaymentStatus.paid)
    × (authorize_payment 7 "w" s' ≡ (err financial_error "payment cannot be authorized", s'))
    × (capture_payment 7 (some "x") s' ≡ (err financial_error "payment cannot be captured", s'))
    × (mark_paid 7 (some "x") s' ≡ (err payment_error "payment cannot be marked paid", s'))
unfolding capture_payment update_row find put
capture_payment_once_example =
    capture_payment_once 7 none (some "x") "w" (with_payment PaymentStatus.authorized 2500)
      {p = payment_of PaymentStatus.paid 2500} refl

create_payment_intent_within_limits_example :
    let s' =
      (create_payment_intent 120 50 8 1
        (record { coefficient = pos 12345; places = 3 })
        "s"
        none
        "LSL"
        (some "k")
        limited).1 in
    (daily_total 50 1 s'.payments ≤ limits.max_daily_amount)
    × (daily_count 50 1 s'.payments ≤ limits.max_daily_count)
    × (money (record { coefficient = pos 12345; places = 3 }) ≤ℤ pos limits.max_transaction_amount)
unfolding create_payment_intent enforce_risk_limit check_limits insert_checked insert_payment
    find_where put find money quantize round_half_up ◌*ℤ◌ ◌+ℤ◌
create_payment_intent_within_limits_example =
    create_payment_intent_within_limits 50 120 8 1 (record { coefficient = pos 12345; places = 3 })
      "s" none "LSL" (some "k") limited limits
      {p = (8, new_payment 120 1 none "s" 1235 "LSL" (some "k"))} refl refl (omega arith) refl refl

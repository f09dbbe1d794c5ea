-- ===== src/Finance/Refunds.antt =====
-- Refunds and disputes: `request_refund`, `complete_refund` and `open_dispute` of
-- app/services/financial.py. `token` is the `uuid4()` of the reference.
pub mod Laws
mod Tests
use thuso_wechat_ls.Base.{
  ℕ, suc, ◌+◌, ◌*◌, Bool, true, false, Option, none, some, String, ◌<>◌, ◌==◌, leb, ltb,
  if◌then◌else◌, Exec, ok, err, find, put, update_where, financial_error, integrity_error, not,
  find_where,
}
use thuso_wechat_ls.Base.Uuid.{uuid_text}
use thuso_wechat_ls.Base.Int.{ℤ, pos, negsuc, ltb_ℤ, sub_ℕ, ◌-ℤ◌}
use thuso_wechat_ls.Money.{Decimal, money, cents}
use thuso_wechat_ls.Finance.Books.{
  Books, Payment, PaymentStatus, Refund, RefundStatus, Dispute, is_paid,
}

abbrev pub is_requested : RefundStatus → Bool
is_requested RefundStatus.requested = true
is_requested _ = false

abbrev pub is_succeeded : RefundStatus → Bool
is_succeeded RefundStatus.succeeded = true
is_succeeded _ = false

abbrev pub new_refund : (payment_id token : ℕ) → Payment → ℕ → String → Refund
new_refund payment_id token p amount reason = record {
  payment_id = payment_id;
  user_id = p.user_id;
  amount = amount;
  currency = p.currency;
  status = RefundStatus.requested;
  reference = "refund:" <> uuid_text payment_id <> ":" <> uuid_text token;
  reason = reason;
  provider_reference = none;
}

-- The insertion behind the column's check `amount > 0`.
insert_refund : (new_id payment_id token : ℕ) → Payment → ℤ → String → Exec Books Refund
insert_refund new_id payment_id token p (pos (suc n)) reason s =
    let r : Refund = new_refund payment_id token p (suc n) reason in
    (ok r, record s { refunds = put new_id r s.refunds })
insert_refund new_id payment_id token p _ reason s = (err integrity_error "refunds_amount_check", s)

-- The guards on the payment that was found, and the insertion. What remains is the amount of the
-- payment less what has been refunded.
refund_payment : (new_id payment_id token : ℕ) → ℤ → String → Option Payment → Exec Books Refund
unfolding insert_refund
refund_payment new_id payment_id token amount reason none s =
    (err financial_error "payment not found", s)
refund_payment new_id payment_id token amount reason (some p) s =
    if not (is_paid p.status)
    then (err financial_error "payment is not refundable", s)
    else if ltb_ℤ (money (cents (pos p.amount -ℤ pos p.refunded_amount))) amount
    then (err financial_error "refund exceeds remaining payment", s)
    else insert_refund new_id payment_id token p amount reason s

pub request_refund : (new_id payment_id token : ℕ) → Decimal → String → Exec Books Refund
unfolding refund_payment
request_refund new_id payment_id token amount reason s =
    refund_payment new_id payment_id token (money amount) reason (find payment_id s.payments) s

-- `refunded_amount=refunded_amount+:amount`, and 'refunded' once that reaches the amount.
abbrev pub add_refund : ℕ → Payment → Payment
add_refund amount p = record p {
  refunded_amount = p.refunded_amount + amount;
  status = if leb p.amount (p.refunded_amount + amount) then PaymentStatus.refunded else p.status;
}

complete : (refund_id : ℕ) → String → Option Refund → Exec Books Refund
complete refund_id provider_reference none s = (err financial_error "refund not found", s)
complete refund_id provider_reference (some r) s =
    if is_succeeded r.status
    then (ok r, s)
    else if not (is_requested r.status)
    then (err financial_error "refund cannot be completed", s)
    else (let r' : Refund = record r {
      status = RefundStatus.succeeded;
      provider_reference = some provider_reference;
    } in
        (
          ok r',
          record s {
            refunds = put refund_id r' s.refunds;
            payments = update_where (λ id _. id == r.payment_id) (add_refund r.amount) s.payments;
          },
        ))

pub complete_refund : (refund_id : ℕ) → String → Exec Books Refund
unfolding complete
complete_refund refund_id provider_reference s =
    complete refund_id provider_reference (find refund_id s.refunds) s

insert_dispute :
    (new_id user_id request_id : ℕ) → Option ℕ → ℤ → String → Option String → Exec Books Dispute
insert_dispute new_id user_id request_id payment_id (pos amount) reason description s =
    let d : Dispute = record {
      user_id = user_id;
      request_id = request_id;
      payment_id = payment_id;
      amount = amount;
      reason = reason;
      description = description;
    } in
    (ok d, record s { disputes = put new_id d s.disputes })
insert_dispute new_id user_id request_id payment_id (negsuc _) reason description s =
    (err integrity_error "disputes_amount_check", s)

pub open_dispute :
    (new_id user_id request_id : ℕ)
    → Option ℕ
    → Decimal
    → String
    → Option String
    → Exec Books Dispute
unfolding insert_dispute
open_dispute new_id user_id request_id payment_id amount =
    insert_dispute new_id user_id request_id payment_id (money amount)

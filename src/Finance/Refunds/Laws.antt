-- ===== src/Finance/Refunds/Laws.antt =====
-- The refunded amount of a payment is the sum of its succeeded refunds; what the code does not
-- guard is that several requested refunds together may exceed the payment.
use thuso_wechat_ls.Base.{
  Option-cases, inl, inr, ℕ, zero, suc, ◌+◌, ◌≡◌, refl, false, ◌&&◌, Option, none, some, String,
  arith, ◌==◌, if◌then◌else◌, Table, ok, find, put, find-put, find-put_self, find-update_where,
  update_where, sum_by, sum_by-put, sum_by-put_new,
}
use thuso_wechat_ls.Base.Int.{ℤ, pos, negsuc, ◌-ℤ◌}
use thuso_wechat_ls.Money.{Decimal, money, cents}
use thuso_wechat_ls.Money.Rounding.{money-cents}
use thuso_wechat_ls.Finance.Books.{Books, Payment, PaymentStatus, Refund, RefundStatus}
use thuso_wechat_ls.Finance.Refunds.{
  request_refund, complete_refund, complete, refund_payment, is_succeeded, new_refund, add_refund,
}

-- The succeeded refunds of a payment, in cents.
abbrev pub weight : ℕ → Refund → ℕ
weight payment_id r = if r.payment_id == payment_id && is_succeeded r.status then r.amount else 0

abbrev pub refunded_total : ℕ → Table Refund → ℕ
refunded_total payment_id = sum_by (weight payment_id)

pub record IsBalanced (s : Books) : Type 0 where
  pub at_payment :
      (id : ℕ) (p : Payment)
      → find id s.payments ≡ some p
      → p.refunded_amount ≡ refunded_total id s.refunds

refund_payment_refunds :
    (i id tok : ℕ) (x : ℤ) (why : String) (o : Option Payment) (s : Books) (k : ℕ)
    → find i s.refunds ≡ none
    → ((refund_payment i id tok x why o s).1.payments ≡ s.payments)
      × (refunded_total k (refund_payment i id tok x why o s).1.refunds
          ≡ refunded_total k s.refunds)
unfolding refund_payment
refund_payment_refunds i id tok x why none s k f = (refl, refl)
refund_payment_refunds i id tok (negsuc x) why (some p) s k f = ground arith
refund_payment_refunds i id tok (pos zero) why (some p) s k f = ground arith
refund_payment_refunds i id tok (pos (suc n)) why (some p) s k f =
    ground (arith, sum_by-put_new (weight k) i (new_refund id tok p (suc n) why) s.refunds f)

-- Requesting a refund, under a new identifier, keeps the books balanced.
request_refund-IsBalanced :
    (i id tok : ℕ) (x : Decimal) (why : String) (s : Books)
    → find i s.refunds ≡ none
    → IsBalanced s
    → IsBalanced (request_refund i id tok x why s).1
unfolding request_refund
request_refund-IsBalanced i id tok x why s f b = record {
  at_payment = λ k p e. ground (
    arith,
    refund_payment_refunds i id tok (money x) why (find id s.payments) s k f,
    b.at_payment k p,
  );
}

-- Completing a refund keeps the books balanced.
complete-IsBalanced :
    (i : ℕ) (ref : String) (s : Books) (r : Refund)
    → find i s.refunds ≡ some r
    → IsBalanced s
    → IsBalanced (complete i ref (some r) s).1
unfolding complete
complete-IsBalanced i ref s r found b = record {
  at_payment = λ k p e. elim (Option-cases (find k s.payments)) [
    | inl missing ↦ ground (
      arith,
      missing,
      find-update_where (λ id _. id == r.payment_id) (add_refund r.amount) k s.payments,
    )
    | inr (old, before) ↦ ground (
      arith,
      before,
      b.at_payment k old before,
      find-update_where (λ id _. id == r.payment_id) (add_refund r.amount) k s.payments,
      sum_by-put (weight k) i
          (record r { status = RefundStatus.succeeded; provider_reference = some ref }) r s.refunds
          found,
    )
  ];
}

-- Completing a refund twice returns the same refund, and the second time changes nothing.
complete_refund_idem :
    (i : ℕ) (ref ref' : String) (s : Books) {r : Refund}
    → (complete_refund i ref s).0 ≡ ok r
    → complete_refund i ref' (complete_refund i ref s).1 ≡ (ok r, (complete_refund i ref s).1)
unfolding complete_refund
complete_refund_idem i ref ref' s {r} h = ground (arith, find-put_self i r s.refunds)

-- Completing a refund keeps the books balanced: the refunded amount of each payment stays the sum of
-- its succeeded refunds.
pub complete_refund-IsBalanced :
    (i : ℕ) (ref : String) (s : Books) → IsBalanced s → IsBalanced (complete_refund i ref s).1
unfolding complete_refund
complete_refund-IsBalanced i ref s b = elim (Option-cases (find i s.refunds)) [
  | inl missing ↦ rw missing b
  | inr (r, found) ↦ rw found (complete-IsBalanced i ref s r found b)
]

request_refund_whole :
    (i id a : ℕ) (why : String) (s : Books) (p : Payment) (n : ℕ)
    → find id s.payments ≡ some p
    → p.status ≡ PaymentStatus.paid
    → p.amount ≡ suc n
    → p.refunded_amount ≡ 0
    → (request_refund i id a (cents (pos p.amount)) why s).1
      ≡ record s { refunds = put i (new_refund id a p p.amount why) s.refunds }
unfolding request_refund money ◌-ℤ◌
request_refund_whole i id a why s p n found paid amount fresh =
    ground (arith, found, paid, amount, fresh, money-cents (pos p.amount))

complete_refund-requested :
    (i : ℕ) (ref : String) (s : Books) (r : Refund)
    → find i s.refunds ≡ some r
    → r.status ≡ RefundStatus.requested
    → (complete_refund i ref s).1 ≡ record s {
      refunds =
          put i
            (record r { status = RefundStatus.succeeded; provider_reference = some ref })
            s.refunds;
      payments = update_where (λ id _. id == r.payment_id) (add_refund r.amount) s.payments;
    }
unfolding complete_refund
complete_refund-requested i ref s r found st = ground (arith, found, st)

-- Two refunds of the whole of a paid payment, requested one after the other before either is
-- completed, are both accepted and both complete, and the refunded amount is then twice the payment.
refunds_exceed_payment :
    (i j id a b : ℕ) (why ref : String) (s : Books) (p : Payment) (n : ℕ)
    → find id s.payments ≡ some p
    → p.status ≡ PaymentStatus.paid
    → p.amount ≡ suc n
    → p.refunded_amount ≡ 0
    → (j == i) ≡ false
    → let whole : Decimal = cents (pos p.amount) in
      let s₁ = (request_refund i id a whole why s).1 in
      let s₂ = (request_refund j id b whole why s₁).1 in
      let s₃ = (complete_refund i ref s₂).1 in
      let s₄ = (complete_refund j ref s₃).1 in
      find id s₄.payments
      ≡ some (record p { refunded_amount = p.amount + p.amount; status = PaymentStatus.refunded })
refunds_exceed_payment i j id a b why ref s p n found paid amount none_yet differ =
    let r₁ : Refund = new_refund id a p p.amount why in
    let r₂ : Refund = new_refund id b p p.amount why in
    let s₁ : Books = record s { refunds = put i r₁ s.refunds } in
    let s₂ : Books = record s { refunds = put j r₂ s₁.refunds } in
    let done₁ : Refund = record r₁ {
      status = RefundStatus.succeeded;
      provider_reference = some ref;
    } in
    let s₃ : Books = record s₂ {
      refunds = put i done₁ s₂.refunds;
      payments = update_where (λ k _. k == id) (add_refund p.amount) s.payments;
    } in
    let at_i : find i s₂.refunds ≡ some r₁ =
      ground (arith, find-put i j r₂ s₁.refunds, find-put_self i r₁ s.refunds) in
    let at_j : find j s₃.refunds ≡ some r₂ =
      ground (arith, find-put j i done₁ s₂.refunds, find-put_self j r₂ s₁.refunds) in
    let once = find-update_where (λ k _. k == id) (add_refund p.amount) id s.payments in
    let twice = find-update_where (λ k _. k == id) (add_refund p.amount) id s₃.payments in
    rw
      (
        request_refund_whole i id a why s p n found paid amount none_yet,
        request_refund_whole j id b why s₁ p n found paid amount none_yet,
        complete_refund-requested i ref s₂ r₁ at_i refl,
        complete_refund-requested j ref s₃ r₂ at_j refl,
      )
      (ground (arith, found, once, twice))

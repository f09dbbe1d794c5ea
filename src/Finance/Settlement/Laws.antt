-- ===== src/Finance/Settlement/Laws.antt =====
-- A payment is settled once, the settlement adds up and its journal balances.
use thuso_wechat_ls.Base.{
  ℕ, ◌+◌, ◌≤◌, ◌≡◌, refl, ap, ◌∙◌, true, Option, none, some, arith, find, find-put_self, Result, ok,
  err, integrity_error, Bool-cases, inl, inr,
}
use thuso_wechat_ls.Base.Int.{ℤ, pos, ◌-ℤ◌, -ℤ_parts}
use thuso_wechat_ls.Money.{Decimal, money, cents}
use thuso_wechat_ls.Money.Rounding.{money-cents}
use thuso_wechat_ls.Finance.Books.{Payment, is_paid}
use thuso_wechat_ls.Finance.Settlement.{
  Settlement, Treasury, split_amounts, split_settlement, split_found, settle_payment, settle_found,
  settle_paid, write_settlement, is_settled,
}

split_amounts_adds_up :
    (x y : ℤ) {a : ℕ × ℕ × ℕ}
    → split_amounts x y ≡ ok a
    → (a.1 + a.2 ≡ a.0) × (pos a.0 ≡ x) × (pos a.1 ≡ y) × (1 ≤ a.0)
unfolding split_amounts
split_amounts_adds_up x y {a} h = ground (arith, money-cents (x -ℤ y), -ℤ_parts x y)

-- What a split gives adds up: the gross amount, which is positive, is the fee and the provider's
-- part, and gross and fee are the rounded arguments.
pub split_settlement_adds_up :
    (gross fee : Decimal) {a : ℕ × ℕ × ℕ}
    → split_settlement gross fee ≡ ok a
    → (a.1 + a.2 ≡ a.0) × (pos a.0 ≡ money gross) × (pos a.1 ≡ money fee) × (1 ≤ a.0)
unfolding split_settlement
split_settlement_adds_up gross fee h = split_amounts_adds_up (money gross) (money fee) h

write_settlement_stored :
    (i id prov : ℕ) (p : Payment) (old : Option Settlement) (r : Result (ℕ × ℕ × ℕ)) (s : Treasury)
    {row : Settlement}
    → (write_settlement i id prov p old r s).0 ≡ ok row
    → let s' = (write_settlement i id prov p old r s).1 in
      (find id s'.settlements ≡ some row) × (is_settled row.status ≡ true) × (s'.books ≡ s.books)
unfolding write_settlement
write_settlement_stored i id prov p old (err k m) s h = absurd (cc h)
write_settlement_stored i id prov p none (ok (g, f, e)) s {row} h =
    ground (arith, find-put_self id row s.settlements)
write_settlement_stored i id prov p (some old) (ok (g, f, e)) s {row} h =
    ground (arith, find-put_self id row s.settlements)

-- What a settlement that was accepted leaves behind.
abbrev pub IsStored : ℕ → Settlement → Treasury → Treasury → Type 0
IsStored id row s s' =
    (find id s'.settlements ≡ some row) × (is_settled row.status ≡ true) × (s'.books ≡ s.books)

settle_paid-IsStored :
    (i id prov : ℕ) (fee : Option Decimal) (p : Payment) (o : Option Settlement) (s : Treasury)
    {row : Settlement}
    → find id s.settlements ≡ o
    → (settle_paid i id prov fee p o s).0 ≡ ok row
    → IsStored id row s (settle_paid i id prov fee p o s).1
unfolding settle_paid
settle_paid-IsStored i id prov fee p none s {row} at h =
    write_settlement_stored i id prov p none (split_found fee p) s h
settle_paid-IsStored i id prov fee p (some old) s {row} at h =
    elim (Bool-cases (is_settled old.status)) [
      | inl done ↦ ground (arith, at)
      | inr again ↦ rw again (
          write_settlement_stored i id prov p (some old) (split_found fee p) s
            (rw (again, settle_paid) at h))
    ]

settle_found-IsStored :
    (i id prov : ℕ) (fee : Option Decimal) (o : Option Payment) (s : Treasury) {row : Settlement}
    → (settle_found i id prov fee o s).0 ≡ ok row
    → IsStored id row s (settle_found i id prov fee o s).1
      × ((p : Payment) × (o ≡ some p) × (is_paid p.status ≡ true))
unfolding settle_found
settle_found-IsStored i id prov fee none s h = absurd (cc h)
settle_found-IsStored i id prov fee (some p) s {row} h = elim (Bool-cases (is_paid p.status)) [
  | inl paid ↦ (
    rw paid (
        settle_paid-IsStored i id prov fee p (find id s.settlements) s refl
          (rw (paid, settle_found) at h)),
    (p, refl, paid),
  )
  | inr other ↦ absurd (cc (rw (other, settle_found) at h))
]

settle_again :
    (j id prov : ℕ) (fee : Option Decimal) (s : Treasury) (p : Payment) (row : Settlement)
    → find id s.books.payments ≡ some p
    → is_paid p.status ≡ true
    → find id s.settlements ≡ some row
    → is_settled row.status ≡ true
    → settle_payment j id prov fee s ≡ (ok row, s)
unfolding settle_payment settle_found settle_paid
settle_again j id prov fee s p row found paid there done = ground (arith, found, paid, there, done)

-- Once a payment is settled, settling it again, for any provider and any fee, returns that settlement
-- and changes nothing: no second set of journal lines is written.
pub settle_payment_idem :
    (i j id prov other : ℕ) (fee fee' : Option Decimal) (s : Treasury) {row : Settlement}
    → (settle_payment i id prov fee s).0 ≡ ok row
    → let s' = (settle_payment i id prov fee s).1 in
      settle_payment j id other fee' s' ≡ (ok row, s')
unfolding settle_payment
settle_payment_idem i j id prov other fee fee' s {row} h =
    let s' = (settle_payment i id prov fee s).1 in
    let (stored, (p, found, paid)) =
      settle_found-IsStored i id prov fee (find id s.books.payments) s h in
    settle_again j id other fee' s' p row (ap (λ b. find id b.payments) stored.2 ∙ found) paid
      stored.0 stored.1

-- A paid payment that is not settled yet cannot be settled without a fee: the line of the fee would
-- be 0, which the journal's table refuses.
settle_payment_zero_fee :
    (i id prov : ℕ) (s : Treasury) (p : Payment)
    → find id s.books.payments ≡ some p
    → is_paid p.status ≡ true
    → 1 ≤ p.amount
    → find id s.settlements ≡ none
    → settle_payment i id prov (some (cents (pos 0))) s
      ≡ (err integrity_error "financial_journal_lines_amount_check", s)
unfolding settle_payment settle_found settle_paid write_settlement split_settlement split_amounts
    ◌-ℤ◌
settle_payment_zero_fee i id prov s p found paid amount new =
    ground (arith, found, paid, new, amount, money-cents (pos 0), money-cents (pos p.amount))

-- ===== src/Finance/Settlement/Journal.antt =====
-- The journal of a settlement balances.
use thuso_wechat_ls.Base.{
  ℕ, ◌+◌, ◌≡◌, refl, ◌&&◌, Option, none, some, List, [], ◌∷◌, ◌++◌, arith, ◌==◌, if◌then◌else◌,
  find, Result, ok, err, Bool-cases, inl, inr,
}
use thuso_wechat_ls.Base.Int.{pos}
use thuso_wechat_ls.Money.{Decimal, money, cents}
use thuso_wechat_ls.Finance.Books.{Payment, Direction, credit, debit, is_paid}
use thuso_wechat_ls.Finance.Ledger.{same_direction}
use thuso_wechat_ls.Finance.Settlement.{
  Settlement, Line, Treasury, split_settlement, split_found, fee_or_default, journal_for,
  settlement_reference, settle_payment, settle_found, settle_paid, write_settlement, is_settled,
  lines_of,
}
use thuso_wechat_ls.Finance.Settlement.Laws.{split_settlement_adds_up}

-- The debits and the credits of a journal.
abbrev pub side_total : Direction → ℕ → List Line → ℕ
side_total d j [] = 0
side_total d j (l ∷ ls) =
    (if l.journal_id == j && same_direction l.direction d then l.amount else 0) + side_total d j ls

abbrev pub IsBalanced : List Line → Type 0
IsBalanced lines = (j : ℕ) → side_total debit j lines ≡ side_total credit j lines

side_total-append :
    (d : Direction) (j : ℕ) (k l : List Line)
    → side_total d j (k ++ l) ≡ side_total d j k + side_total d j l
side_total-append d j [] l = omega arith
side_total-append d j (x ∷ k) l = omega (arith, side_total-append d j k l)

-- The amounts, where there are any, add up.
abbrev pub AddUp : Result (ℕ × ℕ × ℕ) → Type 0
AddUp (err k m) = Unit
AddUp (ok (gross, fee, earning)) = fee + earning ≡ gross

split_settlement-AddUp :
    (gross fee : Decimal) (r : Result (ℕ × ℕ × ℕ)) → split_settlement gross fee ≡ r → AddUp r
split_settlement-AddUp gross fee (err k m) e = tt
split_settlement-AddUp gross fee (ok a) e = (split_settlement_adds_up gross fee e).0

split_found-AddUp : (fee : Option Decimal) (p : Payment) → AddUp (split_found fee p)
split_found-AddUp fee p =
    split_settlement-AddUp (cents (money (cents (pos p.amount))))
      (cents (money (fee_or_default fee (money (cents (pos p.amount)))))) (split_found fee p) refl

write_settlement-IsBalanced :
    (i id prov : ℕ) (p : Payment) (old : Option Settlement) (r : Result (ℕ × ℕ × ℕ)) (s : Treasury)
    → AddUp r
    → IsBalanced s.lines
    → IsBalanced (write_settlement i id prov p old r s).1.lines
unfolding write_settlement
write_settlement-IsBalanced i id prov p old (err k m) s add b = b
write_settlement-IsBalanced i id prov p old (ok (g, f, e)) s add b = λ j.
    let n = (journal_for (settlement_reference id) i s.journals).0 in
    ground (
      arith,
      add,
      b j,
      side_total-append debit j s.lines (lines_of n g f e),
      side_total-append credit j s.lines (lines_of n g f e),
    )

settle_paid-IsBalanced :
    (i id prov : ℕ) (fee : Option Decimal) (p : Payment) (o : Option Settlement) (s : Treasury)
    → IsBalanced s.lines
    → IsBalanced (settle_paid i id prov fee p o s).1.lines
unfolding settle_paid
settle_paid-IsBalanced i id prov fee p none s b =
    write_settlement-IsBalanced i id prov p none (split_found fee p) s (split_found-AddUp fee p) b
settle_paid-IsBalanced i id prov fee p (some old) s b = elim (Bool-cases (is_settled old.status)) [
  | inl done ↦ rw done b
  | inr again ↦ rw again (
      write_settlement-IsBalanced i id prov p (some old) (split_found fee p) s
        (split_found-AddUp fee p) b)
]

settle_found-IsBalanced :
    (i id prov : ℕ) (fee : Option Decimal) (o : Option Payment) (s : Treasury)
    → IsBalanced s.lines
    → IsBalanced (settle_found i id prov fee o s).1.lines
unfolding settle_found
settle_found-IsBalanced i id prov fee none s b = b
settle_found-IsBalanced i id prov fee (some p) s b = elim (Bool-cases (is_paid p.status)) [
  | inl paid ↦ rw paid (settle_paid-IsBalanced i id prov fee p (find id s.settlements) s b)
  | inr other ↦ rw other b
]

-- Settling keeps every journal balanced: its debits equal its credits.
pub settle_payment-IsBalanced :
    (i id prov : ℕ) (fee : Option Decimal) (s : Treasury)
    → IsBalanced s.lines
    → IsBalanced (settle_payment i id prov fee s).1.lines
unfolding settle_payment
settle_payment-IsBalanced i id prov fee s b =
    settle_found-IsBalanced i id prov fee (find id s.books.payments) s b

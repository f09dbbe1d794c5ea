-- ===== src/Pos/Laws.antt =====
-- An order takes from the stock exactly what it sells.
use thuso_wechat_ls.Base.{
  ℕ, ◌+◌, ◌≡◌, none, some, List, [], ◌∷◌, ◌==◌, if◌then◌else◌, Table, find, AllOf, ◌*◌,
}
use thuso_wechat_ls.Pos.{Product, OrderItem, Filled, to_cents}

-- The quantity of a product in the requests, and in the stock.
abbrev pub ordered : ℕ → List (ℕ × ℕ) → ℕ
ordered id [] = 0
ordered id ((k, q) ∷ l) = (if k == id then q else 0) + ordered id l

abbrev pub in_stock : ℕ → Table Product → ℕ
in_stock id t = elim (find id t) [ none ↦ 0 | some p ↦ p.stock_quantity ]

-- The sum of the prices times the quantities of the lines, in hundred-thousandths.
abbrev pub lines_total : List OrderItem → ℕ
lines_total [] = 0
lines_total (l ∷ ls) = l.unit_price * l.quantity + lines_total ls

-- The stored total of a line is its price times its quantity, to the nearest cent.
abbrev pub IsRounded : OrderItem → Type 0
IsRounded l = l.line_total ≡ to_cents (l.unit_price * l.quantity)

-- What a loop that went through has done.
abbrev pub Sells : List (ℕ × ℕ) → Table Product → Filled → Type 0
Sells requests t f =
    ((id : ℕ) → in_stock id f.0 + ordered id requests ≡ in_stock id t)
    × (lines_total f.1 ≡ f.2)
    × AllOf IsRounded f.1

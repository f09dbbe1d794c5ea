-- ===== src/Money.antt =====
-- Decimal amounts: `money` of app/services/financial.py (and its copy in app/services/commerce.py).
-- A Decimal is its coefficient and its number of places; an amount in cents is the coefficient at
-- two places. The 28 digits of Python's decimal context are more than numeric(14,2) columns reach,
-- so products and sums are exact.
pub mod Rounding
use thuso_wechat_ls.Base.{ℕ, ◌+◌, ◌-◌, ◌*◌, ◌/◌, ◌^◌, ◌%◌, ◌==◌, max, Bool, ltb, leb, if◌then◌else◌}
use thuso_wechat_ls.Base.Int.{ℤ, ◌+ℤ◌, ltb_ℤ, pos, negsuc, ◌-ℤ◌, ◌*ℤ◌, pos_part, neg_part, sub_ℕ}

pub record Decimal : Type 0 where
  pub coefficient : ℤ
  pub places : ℕ

-- n / m to the nearest whole number, a half away from zero.
unfoldable pub round_half_up : ℕ → ℕ → ℕ
round_half_up n m = (2 * n + m) / (2 * m)

-- `Decimal.quantize(Decimal('0.01'), rounding=ROUND_HALF_UP)`, as cents.
unfoldable pub quantize : Decimal → ℤ
unfolding round_half_up ◌*ℤ◌
quantize d =
    if leb d.places 2
    then d.coefficient *ℤ pos (10 ^ (2 - d.places))
    else sub_ℕ (round_half_up (pos_part d.coefficient) (10 ^ (d.places - 2)))
        (round_half_up (neg_part d.coefficient) (10 ^ (d.places - 2)))

unfoldable pub money : Decimal → ℤ
unfolding quantize
money d = quantize d

-- An amount in cents as the Decimal that it is.
abbrev pub cents : ℤ → Decimal
cents c = record { coefficient = c; places = 2 }

-- `a * b` and `a - b` of Decimals with two places, the latter again with two.
abbrev pub times : ℤ → Decimal → Decimal
times c r = record { coefficient = c *ℤ r.coefficient; places = r.places + 2 }

-- `Decimal('0.10')`
abbrev pub ten_percent : Decimal
ten_percent = record { coefficient = pos 10; places = 2 }

-- n / m to the nearest whole number, a half to the even one: the rounding of Python's decimal
-- context.
unfoldable pub round_half_even : ℕ → ℕ → ℕ
round_half_even n m =
    let q = n / m in
    let r = n % m in
    if ltb (2 * r) m then q else if ltb m (2 * r) then q + 1 else if q % 2 == 0 then q else q + 1

-- `Decimal.quantize(Decimal('0.01'))`, as cents.
unfoldable pub quantize_even : Decimal → ℤ
unfolding round_half_even ◌*ℤ◌
quantize_even d =
    if leb d.places 2
    then d.coefficient *ℤ pos (10 ^ (2 - d.places))
    else sub_ℕ (round_half_even (pos_part d.coefficient) (10 ^ (d.places - 2)))
        (round_half_even (neg_part d.coefficient) (10 ^ (d.places - 2)))

-- The coefficient at a larger number of places.
abbrev pub at_places : ℕ → Decimal → ℤ
at_places n d = d.coefficient *ℤ pos (10 ^ (n - d.places))

-- `a + b`, `a * b` and `a > b` of Decimals.
abbrev pub plus : Decimal → Decimal → Decimal
plus a b =
    let n = max a.places b.places in
    record { coefficient = at_places n a +ℤ at_places n b; places = n }

abbrev pub product : Decimal → Decimal → Decimal
product a b = record { coefficient = a.coefficient *ℤ b.coefficient; places = a.places + b.places }

abbrev pub exceeds : Decimal → Decimal → Bool
exceeds a b = let n = max a.places b.places in ltb_ℤ (at_places n b) (at_places n a)

-- ===== src/Money/Rounding.antt =====
-- Rounding to cents: exact on cents, within half a cent elsewhere, and monotone.
use native.Mathlib.Nat.{div-add-mod, div-add-mod', le-div_iff_mul-le, mod-lt, pow-suc}
use thuso_wechat_ls.Base.{ℕ, zero, suc, ◌+◌, ◌*◌, ◌^◌, ◌/◌, ◌≤◌, ◌<◌, ◌≡◌, arith}
use thuso_wechat_ls.Base.Int.{ℤ, ◌*ℤ◌}
use thuso_wechat_ls.Money.{round_half_up, money, cents}

-- The nearest whole number: twice the distance is at most the divisor, and a half goes up.
pub round_half_up_nearest :
    (n m : ℕ)
    → 0 < m
    → (2 * (m * round_half_up n m) ≤ 2 * n + m) × (2 * n < 2 * (m * round_half_up n m) + m)
unfolding round_half_up
round_half_up_nearest n m h =
    let q : ℕ = (2 * n + m) / (2 * m) in
    (
      omega (arith, div-add-mod (2 * n + m) (2 * m), mod-lt (2 * n + m) {m = 2 * m} (omega arith)),
      omega (arith, div-add-mod (2 * n + m) (2 * m), mod-lt (2 * n + m) {m = 2 * m} (omega arith)),
    )

div_mono : (a b k : ℕ) → 0 < k → a ≤ b → a / k ≤ b / k
div_mono a b k h le = (le-div_iff_mul-le h).1 (omega (arith, div-add-mod' a k))

pub round_half_up_mono : (a b m : ℕ) → 0 < m → a ≤ b → round_half_up a m ≤ round_half_up b m
unfolding round_half_up
round_half_up_mono a b m h le = div_mono _ _ (2 * m) (omega arith) (omega arith)

pub money-cents : (c : ℤ) → money (cents c) ≡ c
unfolding money ◌*ℤ◌
money-cents c = ground arith

pow_pos : (k : ℕ) → 0 < 10 ^ k
pow_pos zero = omega arith
pow_pos (suc k) = omega (arith, pow-suc 10 k, pow_pos k)

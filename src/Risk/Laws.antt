-- ===== src/Risk/Laws.antt =====
-- The score is bounded and monotone, and some transactions are always blocked.
use Prim.{⊥}
use thuso_wechat_ls.Base.{ℕ, ◌+◌, ◌≤◌, ◌≡◌, refl, Bool, true, List, [], ◌∷◌, arith}
use thuso_wechat_ls.Money.{exceeds}
use thuso_wechat_ls.Risk.{
  RiskDecision, RiskInput, Rule, Tally, rules, add_if, add_all, whole, score_transaction,
}

-- b implies c.
abbrev pub Implies : Bool → Bool → Type 0
Implies b c = b ≡ true → c ≡ true

-- Rule by rule, the second list adds at least what the first adds.
abbrev pub Dominates : List Rule → List Rule → Type 0
Dominates [] [] = Unit
Dominates [] (q ∷ qs) = Unit
Dominates (r ∷ rs) [] = ⊥
Dominates (r ∷ rs) (q ∷ qs) = (Implies r.test q.test × (r.points ≡ q.points)) × Dominates rs qs

add_if_grows : (r : Rule) (t : Tally) → t.0 ≤ (add_if r t).0
add_if_grows r t = ground arith

add_if_mono :
    (r q : Rule) (s t : Tally)
    → Implies r.test q.test
    → r.points ≡ q.points
    → s.0 ≤ t.0
    → (add_if r s).0 ≤ (add_if q t).0
add_if_mono r q s t h e le = ground arith

add_all_grows : (rs : List Rule) (t : Tally) → t.0 ≤ (add_all rs t).0
add_all_grows [] t = omega arith
add_all_grows (r ∷ rs) t = omega (arith, add_if_grows r t, add_all_grows rs (add_if r t))

add_all_mono :
    (rs qs : List Rule) (s t : Tally)
    → Dominates rs qs
    → s.0 ≤ t.0
    → (add_all rs s).0 ≤ (add_all qs t).0
add_all_mono [] [] s t h le = le
add_all_mono [] (q ∷ qs) s t h le = omega (arith, le, add_all_grows (q ∷ qs) t)
add_all_mono (r ∷ rs) [] s t h le = absurd h
add_all_mono (r ∷ rs) (q ∷ qs) s t h le =
    add_all_mono rs qs (add_if r s) (add_if q t) h.1 (add_if_mono r q s t h.0.0 h.0.1 le)

-- What a list of rules may add.
abbrev pub total_points : List Rule → ℕ
total_points [] = 0
total_points (r ∷ rs) = r.points + total_points rs

add_all_le : (rs : List Rule) (t : Tally) → (add_all rs t).0 ≤ t.0 + total_points rs
add_all_le [] t = omega arith
add_all_le (r ∷ rs) t = ground (arith, add_all_le rs (add_if r t))

-- y is at least as risky as x.
pub record IsRiskier (x y : RiskInput) : Type 0 where
  pub amounts : (n : ℕ) → Implies (exceeds x.amount (whole n)) (exceeds y.amount (whole n))
  pub daily_amounts :
      (n : ℕ) → Implies (exceeds x.daily_amount (whole n)) (exceeds y.daily_amount (whole n))
  pub daily_counts : x.daily_count ≤ y.daily_count
  pub windows : x.velocity_window_count ≤ y.velocity_window_count
  pub failures : x.failed_count ≤ y.failed_count
  pub ages : y.account_age_days ≤ x.account_age_days
  pub kyc : y.kyc_level ≡ x.kyc_level
  pub payouts : Implies x.payout y.payout
  pub destinations : Implies x.new_destination y.new_destination

-- A transaction that is at least as risky in every respect never scores lower.
pub score_transaction_mono :
    (x y : RiskInput) → IsRiskier x y → (score_transaction x).score ≤ (score_transaction y).score
unfolding score_transaction
score_transaction_mono x y r =
    add_all_mono (rules x) (rules y) (0, []) (0, [])
      (
        (r.amounts 5000, refl),
        (
          (r.amounts 20000, refl),
          (
            (r.daily_amounts 15000, refl),
            (
              (ground (arith, r.daily_counts), refl),
              (
                (ground (arith, r.windows), refl),
                (
                  (ground (arith, r.failures), refl),
                  (
                    (ground (arith, r.ages), refl),
                    (
                      (rw r.kyc (λ e. e), refl),
                      (
                        (ground (arith, r.payouts, r.destinations), refl),
                        ((rw r.kyc (ground (arith, r.payouts)), refl), tt),
                      ),
                    ),
                  ),
                ),
              ),
            ),
          ),
        ),
      )
      (omega arith)

-- The score is at most 200.
score_transaction_bounded : (x : RiskInput) → (score_transaction x).score ≤ 200
unfolding score_transaction
score_transaction_bounded x = add_all_le (rules x) (0, [])

-- A payout of an unverified customer to a new destination is blocked, whatever else is known.
score_transaction_blocks :
    (x : RiskInput)
    → x.payout ≡ true
    → x.new_destination ≡ true
    → x.kyc_level ≡ "unverified"
    → (score_transaction x).decision ≡ RiskDecision.block
unfolding score_transaction
score_transaction_blocks x p n k = rw (p, n, k) (ground arith)

-- ===== src/Risk.antt =====
-- The risk score of a transaction: app/services/risk.py. The counts and the age in days are not
-- negative.
pub mod Laws
mod Tests
use text.Mathlib.Text.{◌==◌ as str_eq}
use thuso_wechat_ls.Base.{
  ℕ, ◌+◌, Bool, ◌&&◌, not, List, [], ◌∷◌, ◌++◌, String, ltb, leb, if◌then◌else◌,
}
use thuso_wechat_ls.Base.Int.{pos}
use thuso_wechat_ls.Money.{Decimal, exceeds}

pub data RiskDecision : Type 0 where
  allow review block : RiskDecision

pub record RiskInput : Type 0 where
  pub amount : Decimal
  pub daily_amount : Decimal
  pub daily_count : ℕ
  pub failed_count : ℕ
  pub account_age_days : ℕ
  pub kyc_level : String
  pub payout : Bool
  pub new_destination : Bool
  pub velocity_window_count : ℕ

pub record RiskResult : Type 0 where
  pub score : ℕ
  pub decision : RiskDecision
  pub reasons : List String

-- `Decimal('n')`
abbrev pub whole : ℕ → Decimal
whole n = record { coefficient = pos n; places = 0 }

-- The score and the reasons so far.
abbrev pub Tally : Type 0
Tally = ℕ × List String

-- `if test: score += points; reasons.append(reason)`
pub record Rule : Type 0 where
  pub test : Bool
  pub points : ℕ
  pub reason : String

abbrev pub rule : Bool → ℕ → String → Rule
rule test points reason = record { test = test; points = points; reason = reason }

abbrev pub add_if : Rule → Tally → Tally
add_if r (score, reasons) =
    if r.test then (score + r.points, reasons ++ (r.reason ∷ [])) else (score, reasons)

-- One statement after the other.
abbrev pub add_all : List Rule → Tally → Tally
add_all [] t = t
add_all (r ∷ rules) t = add_all rules (add_if r t)

abbrev pub rules : RiskInput → List Rule
rules x =
    rule (exceeds x.amount (whole 5000)) 20 "high_value"
    ∷ rule (exceeds x.amount (whole 20000)) 25 "very_high_value"
    ∷ rule (exceeds x.daily_amount (whole 15000)) 20 "daily_value_velocity"
    ∷ rule (leb 15 x.daily_count) 15 "daily_count_velocity"
    ∷ rule (leb 5 x.velocity_window_count) 20 "short_window_velocity"
    ∷ rule (leb 3 x.failed_count) 15 "repeated_failures"
    ∷ rule (ltb x.account_age_days 2) 15 "new_account"
    ∷ rule (str_eq x.kyc_level "unverified") 20 "unverified_customer"
    ∷ rule (x.payout && x.new_destination) 30 "new_payout_destination"
    ∷ rule (x.payout && not (str_eq x.kyc_level "full")) 20 "payout_requires_full_kyc"
    ∷ []

abbrev pub decision_of : ℕ → RiskDecision
decision_of score =
    if leb 70 score
    then RiskDecision.block
    else if leb 40 score
    then RiskDecision.review
    else RiskDecision.allow

pub score_transaction : RiskInput → RiskResult
score_transaction x =
    let (score, reasons) = add_all (rules x) (0, []) in
    record { score = score; decision = decision_of score; reasons = reasons }

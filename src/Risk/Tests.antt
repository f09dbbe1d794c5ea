-- ===== src/Risk/Tests.antt =====
-- Runs of the risk score.
use thuso_wechat_ls.Base.{◌≤◌, refl, true, false, arith}
use thuso_wechat_ls.Risk.{RiskInput, score_transaction, whole}
use thuso_wechat_ls.Risk.Laws.{IsRiskier, score_transaction_mono}

abbrev payment : RiskInput
payment = record {
  amount = whole 6000;
  daily_amount = whole 0;
  daily_count = 0;
  failed_count = 0;
  account_age_days = 30;
  kyc_level = "unverified";
  payout = false;
  new_destination = false;
  velocity_window_count = 0;
}

abbrev payout : RiskInput
payout = record payment { payout = true; new_destination = true }

payout-IsRiskier : IsRiskier payment payout
payout-IsRiskier = record {
  amounts = λ n e. e;
  daily_amounts = λ n e. e;
  daily_counts = omega arith;
  windows = omega arith;
  failures = omega arith;
  ages = omega arith;
  kyc = refl;
  payouts = λ e. refl;
  destinations = λ e. refl;
}

score_transaction_mono_example :
    (score_transaction payment).score ≤ (score_transaction payout).score
score_transaction_mono_example = score_transaction_mono payment payout (payout-IsRiskier)

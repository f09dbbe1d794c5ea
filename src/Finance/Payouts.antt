-- ===== src/Finance/Payouts.antt =====
-- Payouts to providers: `provider_available_balance` and `request_payout` of
-- app/services/financial.py. `token` is the `uuid4()` of the reference.
pub mod Laws
mod Tests
use thuso_wechat_ls.Base.{
  ℕ, suc, String, ◌<>◌, leb, if◌then◌else◌, Exec, ok, err, ◌>>=◌, put, financial_error,
}
use thuso_wechat_ls.Base.Uuid.{uuid_text}
use thuso_wechat_ls.Base.Int.{ℤ, pos, negsuc, ltb_ℤ}
use thuso_wechat_ls.Money.{Decimal, money}
use thuso_wechat_ls.Finance.Books.{Books, Payout, PayoutStatus}
use thuso_wechat_ls.Finance.Ledger.{get_or_create_provider_account, balance}

pub provider_available_balance : (provider_id : ℕ) → String → (new_account : ℕ) → Exec Books ℤ
provider_available_balance provider_id currency new_account = do
  account ← get_or_create_provider_account provider_id currency new_account
  balance account

abbrev pub new_payout : (provider_id amount token : ℕ) → String → Payout
new_payout provider_id amount token currency = record {
  provider_id = provider_id;
  amount = amount;
  currency = currency;
  status = PayoutStatus.requested;
  reference = "payout:" <> uuid_text provider_id <> ":" <> uuid_text token;
}

-- The guard on the balance, and the insertion.
pay_from : (new_id provider_id token amount : ℕ) → String → ℤ → Exec Books Payout
pay_from new_id provider_id token amount currency available s =
    if ltb_ℤ available (pos amount)
    then (err financial_error "insufficient available balance", s)
    else (let p : Payout = new_payout provider_id amount token currency in
        (ok p, record s { payouts = put new_id p s.payouts }))

-- A payout of `amount` cents, which the guard has found positive, against the balance.
payout_checked : (new_id new_account provider_id token amount : ℕ) → String → Exec Books Payout
unfolding pay_from
payout_checked new_id new_account provider_id token amount currency = do
  available ← provider_available_balance provider_id currency new_account
  pay_from new_id provider_id token amount currency available

payout_amount : (new_id new_account provider_id token : ℕ) → ℤ → String → Exec Books Payout
unfolding payout_checked
payout_amount new_id new_account provider_id token (pos (suc n)) currency s =
    payout_checked new_id new_account provider_id token (suc n) currency s
payout_amount new_id new_account provider_id token _ currency s =
    (err financial_error "amount must be positive", s)

pub request_payout :
    (new_id new_account provider_id token : ℕ) → Decimal → String → Exec Books Payout
unfolding payout_amount
request_payout new_id new_account provider_id token amount =
    payout_amount new_id new_account provider_id token (money amount)

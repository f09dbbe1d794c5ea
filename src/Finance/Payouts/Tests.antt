-- ===== src/Finance/Payouts/Tests.antt =====
-- Runs of the payouts.
use thuso_wechat_ls.Base.{◌≡◌, refl, [], ◌∷◌, put, find_where}
use thuso_wechat_ls.Base.Int.{pos, ◌+ℤ◌, ◌*ℤ◌, ◌≤ℤ◌}
use thuso_wechat_ls.Money.{money, quantize, cents}
use thuso_wechat_ls.Finance.Books.{Books, provider, credit}
use thuso_wechat_ls.Finance.Samples.{empty_books}
use thuso_wechat_ls.Finance.Ledger.{sum_entries, balance, get_or_create_provider_account}
use thuso_wechat_ls.Finance.Payouts.{
  request_payout, payout_amount, payout_checked, pay_from, provider_available_balance, new_payout,
}
use thuso_wechat_ls.Finance.Payouts.Laws.{request_payout_covered}

-- Provider 9 has 9.00 on account 2.
abbrev funded : Books
funded = record empty_books {
  accounts = (2, record { owner = provider 9; currency = "LSL" }) ∷ [];
  entries =
      record { account_id = 2; reference = "a"; direction = credit; amount = 900; currency = "LSL" }
      ∷ [];
}

request_payout_covered_example :
    (pos (new_payout 9 700 8 "LSL").amount ≡ money (cents (pos 700)))
    × (money (cents (pos 700)) ≤ℤ sum_entries 2 funded.entries)
unfolding get_or_create_provider_account find_where put request_payout payout_amount payout_checked
    pay_from provider_available_balance balance sum_entries money quantize ◌*ℤ◌ ◌+ℤ◌
request_payout_covered_example =
    request_payout_covered 3 5 9 8 (cents (pos 700)) "LSL" funded {id = 2}
      {q = new_payout 9 700 8 "LSL"} refl refl

-- ===== src/Finance/Settlement/Tests.antt =====
-- Runs of the settlement.
use thuso_wechat_ls.Base.{ℕ, ◌≡◌, refl, none, [], ◌∷◌, find, put, find_where, ok}
use thuso_wechat_ls.Base.Int.{◌-ℤ◌, ◌*ℤ◌}
use thuso_wechat_ls.Money.{money, quantize}
use thuso_wechat_ls.Finance.Books.{Books, PaymentStatus, Payout, PayoutStatus, provider, credit}
use thuso_wechat_ls.Finance.Samples.{empty_books, with_payment}
use thuso_wechat_ls.Finance.Settlement.{
  SettlementStatus, Treasury, split_settlement, split_amounts, settle_payment, settle_found,
  settle_paid, write_settlement,
}
use thuso_wechat_ls.Finance.Settlement.Laws.{settle_payment_idem}
use thuso_wechat_ls.Finance.Settlement.Journal.{settle_payment-IsBalanced, IsBalanced}

abbrev treasury_of : Books → Treasury
treasury_of books = record {
  books = books;
  journals = [];
  lines = [];
  settlements = [];
  reserves = [];
  attempts = [];
}

abbrev split_parts : ℕ × ℕ × ℕ
split_parts = (2500, 250, 2250)

abbrev captured : Treasury
captured = treasury_of (with_payment PaymentStatus.paid 2500)

abbrev payout : Payout
payout = record {
  provider_id = 9;
  amount = 600;
  currency = "LSL";
  status = PayoutStatus.requested;
  reference = "p";
}

abbrev funded : Treasury
funded = treasury_of (record empty_books {
  accounts = (2, record { owner = provider 9; currency = "LSL" }) ∷ [];
  payouts = (3, payout) ∷ [];
  entries =
      record { account_id = 2; reference = "a"; direction = credit; amount = 900; currency = "LSL" }
      ∷ [];
})

settle_payment_idem_example :
    let s' = (settle_payment 5 7 9 none captured).1 in
    settle_payment 6 7 10 none s' ≡ (
      ok (record {
        service_request_id = none;
        provider_id = 9;
        currency = "LSL";
        gross_amount = 2500;
        platform_fee = 250;
        provider_amount = 2250;
        status = SettlementStatus.settled;
        journal_id = 5;
      }),
      s',
    )
unfolding settle_payment settle_found settle_paid write_settlement split_settlement split_amounts
    money quantize ◌*ℤ◌ ◌-ℤ◌ find find_where put
settle_payment_idem_example =
    settle_payment_idem 5 6 7 9 10 none none captured
      {row = record {
        service_request_id = none;
        provider_id = 9;
        currency = "LSL";
        gross_amount = 2500;
        platform_fee = 250;
        provider_amount = 2250;
        status = SettlementStatus.settled;
        journal_id = 5;
      }}
      refl

settle_payment-IsBalanced_example : IsBalanced (settle_payment 5 7 9 none captured).1.lines
settle_payment-IsBalanced_example = settle_payment-IsBalanced 5 7 9 none captured (λ j. refl)

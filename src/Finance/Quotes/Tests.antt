-- ===== src/Finance/Quotes/Tests.antt =====
-- Runs of the quotes.
use thuso_wechat_ls.Base.{
  ◌+◌, ◌<◌, ◌≡◌, refl, some, [], ◌∷◌, find, put, update_row, err, financial_error,
}
use thuso_wechat_ls.Base.Int.{pos, ◌-ℤ◌, ◌*ℤ◌}
use thuso_wechat_ls.Money.{money, quantize, ten_percent, round_half_up}
use thuso_wechat_ls.Finance.Books.{Quote, QuoteStatus}
use thuso_wechat_ls.Finance.Samples.{empty_books}
use thuso_wechat_ls.Finance.Quotes.{create_quote, store_quote, insert_quote, accept_quote}
use thuso_wechat_ls.Finance.Quotes.Laws.{create_quote_splits, accept_quote_once}

abbrev quote_of : QuoteStatus → Quote
quote_of status = record {
  request_id = 4;
  user_id = 1;
  subtotal = 1235;
  platform_fee = 124;
  provider_earning = 1111;
  total = 1235;
  status = status;
  expires_at = 400;
}

create_quote_splits_example :
    ((quote_of QuoteStatus.quoted).platform_fee + (quote_of QuoteStatus.quoted).provider_earning
      ≡ (quote_of QuoteStatus.quoted).total)
    × (pos (quote_of QuoteStatus.quoted).total
        ≡ money (record { coefficient = pos 12345; places = 3 }))
    × (0 < (quote_of QuoteStatus.quoted).total)
    × (find 7
          (create_quote 100 7 1 4
            (record { coefficient = pos 12345; places = 3 })
            ten_percent
            300
            empty_books).1.quotes
        ≡ some (quote_of QuoteStatus.quoted))
unfolding create_quote store_quote insert_quote put money quantize round_half_up ◌*ℤ◌ ◌-ℤ◌
create_quote_splits_example =
    create_quote_splits 100 7 1 4 (record { coefficient = pos 12345; places = 3 }) ten_percent 300
      empty_books {q = quote_of QuoteStatus.quoted} refl

accept_quote_once_example :
    ((quote_of QuoteStatus.accepted).status ≡ QuoteStatus.accepted)
    × (find 7
          (accept_quote 200 7 1
            (record empty_books { quotes = (7, quote_of QuoteStatus.quoted) ∷ [] })).1.quotes
        ≡ some (quote_of QuoteStatus.accepted))
    × (accept_quote 201 7 1
          (accept_quote 200 7 1
            (record empty_books { quotes = (7, quote_of QuoteStatus.quoted) ∷ [] })).1
        ≡ (
          err financial_error "quote unavailable",
          (accept_quote 200 7 1
              (record empty_books { quotes = (7, quote_of QuoteStatus.quoted) ∷ [] })).1,
        ))
unfolding accept_quote update_row find put
accept_quote_once_example =
    accept_quote_once 200 201 7 1 1
      (record empty_books { quotes = (7, quote_of QuoteStatus.quoted) ∷ [] })
      {q = quote_of QuoteStatus.accepted} refl

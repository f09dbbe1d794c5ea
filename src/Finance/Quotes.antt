-- ===== src/Finance/Quotes.antt =====
-- Pricing quotes: `create_quote` and `accept_quote` of app/services/financial.py. The clock of the
-- database is an argument, and so is the identifier of a new row.
pub mod Laws
mod Tests
use thuso_wechat_ls.Base.{
  ℕ, ◌+◌, Bool, true, false, ◌&&◌, Option, none, some, ◌==◌, ltb, leb, if◌then◌else◌, Exec, ok, err,
  put, update_row, commit_row, financial_error, integrity_error,
}
use thuso_wechat_ls.Base.Int.{ℤ, pos, ◌-ℤ◌, pos_part, ltb_ℤ}
use thuso_wechat_ls.Money.{Decimal, money, cents, times}
use thuso_wechat_ls.Finance.Books.{Books, Quote, QuoteStatus}

abbrev pub is_quoted : QuoteStatus → Bool
is_quoted QuoteStatus.quoted = true
is_quoted _ = false

-- The insertion, with the check constraints of the table on the subtotal, the fee and the earning.
insert_quote : ℕ → ℕ → ℕ → ℤ → ℤ → ℤ → ℕ → Exec Books Quote
insert_quote new_id user_id request_id (pos subtotal) (pos fee) (pos earning) expires_at s =
    let q : Quote = record {
      request_id = request_id;
      user_id = user_id;
      subtotal = subtotal;
      platform_fee = fee;
      provider_earning = earning;
      total = subtotal;
      status = QuoteStatus.quoted;
      expires_at = expires_at;
    } in
    (ok q, record s { quotes = put new_id q s.quotes })
insert_quote _ _ _ _ _ _ _ s = (err integrity_error "pricing_quotes check constraint", s)

-- The guards on the subtotal and on the provider's share, and the insertion.
store_quote : (sub fee provider : ℤ) (new_id user_id request_id expires_at : ℕ) → Exec Books Quote
unfolding insert_quote
store_quote sub fee provider new_id user_id request_id expires_at s =
    if leb (pos_part sub) 0
    then (err financial_error "subtotal must be positive", s)
    else if ltb_ℤ provider (pos 0)
    then (err financial_error "invalid pricing", s)
    else insert_quote new_id user_id request_id sub fee provider expires_at s

-- The fee is a rate of the rounded subtotal, rounded again; the provider earns the rest.
pub create_quote :
    (now new_id user_id request_id : ℕ) (subtotal fee_rate : Decimal) (ttl_seconds : ℕ)
    → Exec Books Quote
unfolding store_quote
create_quote now new_id user_id request_id subtotal fee_rate ttl_seconds =
    let sub = money subtotal in
    let fee = money (times sub fee_rate) in
    let provider = money (cents (sub -ℤ fee)) in
    store_quote sub fee provider new_id user_id request_id (now + ttl_seconds)

pub accept_quote : (now quote_id user_id : ℕ) → Exec Books Quote
accept_quote now quote_id user_id s =
    commit_row
      (update_row quote_id
        (λ q. q.user_id == user_id && (is_quoted q.status && ltb now q.expires_at))
        (λ q. record q { status = QuoteStatus.accepted }) s.quotes)
      (λ t b. record b { quotes = t }) financial_error "quote unavailable" s

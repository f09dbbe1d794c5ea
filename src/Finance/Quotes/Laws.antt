-- ===== src/Finance/Quotes/Laws.antt =====
-- A quote splits its total between the platform and the provider without losing a cent.
use thuso_wechat_ls.Base.{
  ℕ, ◌+◌, ◌≡◌, ◌<◌, arith, ok, err, financial_error, update_row, some, find, find-put_self,
}
use thuso_wechat_ls.Base.Int.{ℤ, pos, negsuc, ◌-ℤ◌}
use thuso_wechat_ls.Money.{Decimal, money, times}
use thuso_wechat_ls.Money.Rounding.{money-cents}
use thuso_wechat_ls.Finance.Books.{Books, Quote, QuoteStatus}
use thuso_wechat_ls.Finance.Quotes.{create_quote, store_quote, accept_quote}

store_quote_splits :
    (sub fee provider : ℤ) (id u r e : ℕ) (s : Books) {q : Quote}
    → provider ≡ sub -ℤ fee
    → (store_quote sub fee provider id u r e s).0 ≡ ok q
    → (q.platform_fee + q.provider_earning ≡ q.total)
      × (pos q.total ≡ sub)
      × (0 < q.total)
      × (find id (store_quote sub fee provider id u r e s).1.quotes ≡ some q)
unfolding store_quote ◌-ℤ◌
store_quote_splits (pos m) (pos f) (pos p) id u r e s h k = ground (
  arith,
  find-put_self id
      (record {
        request_id = r;
        user_id = u;
        subtotal = m;
        platform_fee = f;
        provider_earning = p;
        total = m;
        status = QuoteStatus.quoted;
        expires_at = e;
      })
      s.quotes,
)
store_quote_splits (pos m) (pos f) (negsuc p) id u r e s h k = ground arith
store_quote_splits (pos m) (negsuc f) p id u r e s h k = ground arith
store_quote_splits (negsuc m) f p id u r e s h k = ground arith

-- A quote that is created has a positive total, equal to the rounded subtotal, and its platform fee
-- and provider earning add up to the total; it is stored under its identifier.
pub create_quote_splits :
    (now id u r : ℕ) (subtotal rate : Decimal) (ttl : ℕ) (s : Books) {q : Quote}
    → (create_quote now id u r subtotal rate ttl s).0 ≡ ok q
    → (q.platform_fee + q.provider_earning ≡ q.total)
      × (pos q.total ≡ money subtotal)
      × (0 < q.total)
      × (find id (create_quote now id u r subtotal rate ttl s).1.quotes ≡ some q)
create_quote_splits now id u r subtotal rate ttl s {q} h =
    unfold create_quote in
    store_quote_splits (money subtotal) (money (times (money subtotal) rate)) _ id u r (now + ttl) s
      (money-cents _) h

-- A quote is accepted at most once: after `accept_quote` has returned it, every further attempt
-- is refused and changes nothing.
pub accept_quote_once :
    (now later id u v : ℕ) (s : Books) {q : Quote}
    → (accept_quote now id u s).0 ≡ ok q
    → (q.status ≡ QuoteStatus.accepted)
      × (find id (accept_quote now id u s).1.quotes ≡ some q)
      × (accept_quote later id v (accept_quote now id u s).1
          ≡ (err financial_error "quote unavailable", (accept_quote now id u s).1))
unfolding accept_quote update_row
accept_quote_once now later id u v s {q} h = ground (arith, find-put_self id q s.quotes)

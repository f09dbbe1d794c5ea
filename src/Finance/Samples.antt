-- ===== src/Finance/Samples.antt =====
-- Rows for the tests of the money services.
use thuso_wechat_ls.Base.{ℕ, none, [], ◌∷◌}
use thuso_wechat_ls.Finance.Books.{Books, Payment, PaymentStatus}

abbrev pub empty_books : Books
empty_books = record {
  payments = [];
  quotes = [];
  refunds = [];
  disputes = [];
  payouts = [];
  risk_limits = none;
  accounts = [];
  entries = [];
}

-- A payment of user 1, made at second 100.
abbrev pub payment_of : PaymentStatus → ℕ → Payment
payment_of status amount = record {
  user_id = 1;
  service_request_id = none;
  reference = "r";
  provider_reference = none;
  amount = amount;
  refunded_amount = 0;
  currency = "LSL";
  status = status;
  idempotency_key = none;
  created_at = 100;
}

-- That payment, under the identifier 7.
abbrev pub with_payment : PaymentStatus → ℕ → Books
with_payment status amount = record empty_books { payments = (7, payment_of status amount) ∷ [] }

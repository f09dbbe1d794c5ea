-- ===== src/Finance/Books.antt =====
-- The tables of the money services. Amounts are cents; the columns' check constraints keep them
-- at zero or above, so they are natural numbers here, and an insertion tests its amount. Columns
-- that no service reads back (metadata, the time stamps of a change) are left out.
use thuso_wechat_ls.Base.{ℕ, Bool, true, false, Option, List, String, Table}

pub data PaymentStatus : Type 0 where
  pending authorized paid failed refunded cancelled : PaymentStatus

pub data QuoteStatus : Type 0 where
  quoted accepted expired cancelled : QuoteStatus

pub data RefundStatus : Type 0 where
  requested processing succeeded failed cancelled : RefundStatus

pub data PayoutStatus : Type 0 where
  requested processing paid failed cancelled : PayoutStatus

pub data Direction : Type 0 where
  credit debit : Direction

pub record Payment : Type 0 where
  pub user_id : ℕ
  pub service_request_id : Option ℕ
  pub reference : String
  pub provider_reference : Option String
  pub amount : ℕ
  pub refunded_amount : ℕ
  pub currency : String
  pub status : PaymentStatus
  pub idempotency_key : Option String
  pub created_at : ℕ

pub record Quote : Type 0 where
  pub request_id : ℕ
  pub user_id : ℕ
  pub subtotal : ℕ
  pub platform_fee : ℕ
  pub provider_earning : ℕ
  pub total : ℕ
  pub status : QuoteStatus
  pub expires_at : ℕ

pub record Refund : Type 0 where
  pub payment_id : ℕ
  pub user_id : ℕ
  pub amount : ℕ
  pub currency : String
  pub status : RefundStatus
  pub reference : String
  pub reason : String
  pub provider_reference : Option String

pub record Dispute : Type 0 where
  pub user_id : ℕ
  pub request_id : ℕ
  pub payment_id : Option ℕ
  pub amount : ℕ
  pub reason : String
  pub description : Option String

pub record Payout : Type 0 where
  pub provider_id : ℕ
  pub amount : ℕ
  pub currency : String
  pub status : PayoutStatus
  pub reference : String

pub record RiskLimits : Type 0 where
  pub max_transaction_amount : ℕ
  pub max_daily_amount : ℕ
  pub max_daily_count : ℕ
  pub enabled : Bool

-- An account belongs to a user or to a provider, never to both.
pub data Owner : Type 0 where
  user provider : ℕ → Owner

pub record Account : Type 0 where
  pub owner : Owner
  pub currency : String

pub record Entry : Type 0 where
  pub account_id : ℕ
  pub reference : String
  pub direction : Direction
  pub amount : ℕ
  pub currency : String

pub record Books : Type 0 where
  pub payments : Table Payment
  pub quotes : Table Quote
  pub refunds : Table Refund
  pub disputes : Table Dispute
  pub payouts : Table Payout
  -- the row of scope 'default'
  pub risk_limits : Option RiskLimits
  pub accounts : Table Account
  pub entries : List Entry

-- `status in ('pending','authorized')`
abbrev pub is_payable : PaymentStatus → Bool
is_payable PaymentStatus.pending = true
is_payable PaymentStatus.authorized = true
is_payable _ = false

abbrev pub is_pending : PaymentStatus → Bool
is_pending PaymentStatus.pending = true
is_pending _ = false

abbrev pub is_paid : PaymentStatus → Bool
is_paid PaymentStatus.paid = true
is_paid _ = false

-- `status not in ('failed','cancelled')`
abbrev pub counts_today : PaymentStatus → Bool
counts_today PaymentStatus.failed = false
counts_today PaymentStatus.cancelled = false
counts_today _ = true

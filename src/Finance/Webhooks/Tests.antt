-- ===== src/Finance/Webhooks/Tests.antt =====
-- Runs of the webhooks.
use thuso_wechat_ls.Base.{none, some, [], String}
use thuso_wechat_ls.Finance.Books.{PaymentStatus}
use thuso_wechat_ls.Finance.Samples.{with_payment}
use thuso_wechat_ls.Finance.Webhooks.{Event, Webhooks}

abbrev event : String → Event
event status = record {
  event_id = some "e1";
  id = none;
  reference = some "r";
  payment_id = none;
  merchant_reference = none;
  status = some status;
  event_type = none;
}

abbrev no_events : Webhooks
no_events = record { books = with_payment PaymentStatus.paid 2500; events = [] }

-- The statuses of the tests are in lower case.
abbrev lower : String → String
lower text = text

-- ===== src/Messaging/Outbox/Tests.antt =====
-- Runs of the outbox.
use thuso_wechat_ls.Base.{ℕ, Option, none, some, [], ◌∷◌, String, arith, find, Settled, Result, ok}
use thuso_wechat_ls.Messaging.Accounts.{Directory}
use thuso_wechat_ls.Messaging.Outbox.{Payload, Mail, Call, new_message, is_processing}

abbrev hello : Payload
hello = record { body = some "hello"; buttons = []; account_key = none; idempotency_key = none }

abbrev mail : Mail
mail = record {
  messages = (4, new_message 10 "whatsapp" "26650000000" "text" hello (some "shop") none) ∷ [];
  receipts = [];
}

abbrev no_mail : Mail
no_mail = record { messages = []; receipts = [] }

abbrev directory : Directory
directory = record { accounts = []; identities = []; operator_account_key = "" }

-- A transport that takes every call.
abbrev transport : Call → Result (Option String)
transport call = ok (some "wamid.9")

none_processing : (k : ℕ) → Settled is_processing k mail.messages
unfolding find
none_processing k m found = ground arith

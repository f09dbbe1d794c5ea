-- ===== src/Lib.antt =====
-- Naha, a WhatsApp-first marketplace: quotes, payments, settlements and payouts, the durable inbox
-- and outbox of the messaging channel, the routing of payments and accounts, deliveries, the
-- integrations of partners, and the sessions of users and administrators. The services are Python functions over a PostgreSQL database; paths are from the repository's root.
--
-- How the code is modelled. A table is an association list under the row's primary key, a service
-- function takes the tables to its result, which may be an exception, and to the new tables
-- (Base/Tables, Base/Monad). A query is `find`, `find_where` or `select_where`, an insertion is
-- `put`, an update is `put`, `update_row` or `update_where`. `select ... for update` takes the lock
-- that the sequence of the calls stands for; `for update skip locked limit n` is `claim`
-- (Base/Queue). The database's clock, the identifiers it generates and a `uuid4()` are arguments.
-- Where PostgreSQL refuses a statement the model raises too: a constraint that is violated
-- (`integrity_error`), and (`database_error`) a conflict clause for which there is no unique index
-- that it may use (Messaging/Outbox), a distinct query in the order of a column that it does not
-- select (Messaging/Accounts), a column that no migration creates (Finance/Reconciliation), and an
-- integer that overflows (Messaging/Inbox). Money is in cents (Money), what a column of two places
-- stores is rounded (Pos), an amount that may be negative is an integer (Base/Int).
--
-- The parts and their files:
--   * app/services/financial.py, payments.py and ledger_v2.py: Finance/Quotes, Payments, Refunds,
--     Payouts and Ledger, over the tables of Finance/Books.
--   * app/services/settlement.py: Finance/Settlement, over the books and its own tables.
--   * app/services/reconciliation.py: Finance/Reconciliation. `process_provider_webhook` of
--     app/services/payment_provider_service.py: Finance/Webhooks.
--   * app/services/whatsapp_reliability.py and whatsapp_inbox_worker.py (`drain_once`):
--     Messaging/Inbox. The worker's handler is a parameter that answers or raises.
--   * app/services/whatsapp_account_routing.py: Messaging/Accounts.
--   * app/services/outbox.py, whatsapp_outbox_worker.py, and the receipts and the health of
--     whatsapp_reliability.py: Messaging/Outbox. The transport is a parameter.
--   * app/services/realtime.py and realtime_worker.py (`relay_once`): Messaging/Events. The Redis
--     stream is a parameter.
--   * app/services/payment_routing.py: Routing. app/services/risk.py: Risk.
--   * app/services/pos.py: Pos.
--   * app/services/execution.py (`accept_offer`) and app/services/dispatch.py: Dispatch. The ranking
--     of the candidates, which is computed in floating point, is an argument.
--   * app/services/delivery.py: Delivery. It enqueues events (Messaging/Events) and messages
--     (Messaging/Outbox), which resolve their account (Messaging/Accounts).
--   * app/services/template_engine.py: Partners/Template, over the values of JSON (Base/Json).
--   * app/integrations/universal_adapter.py: Partners/World (the context of a call, and what leaves
--     the process), Endpoints, Auth, Requests, Xml, Adapters, Sftp and Registry.
--   * app/services/partner_integrations.py: Partners/Endpoints, Integrations, Operations (a call of
--     a partner through its adapter), Workflows and Discovery.
--   * app/services/partner_webhooks.py: Partners/Webhooks. `receive_webhook` of
--     app/api/partner_webhooks.py: Partners/Receiver.
--   * app/core/principal.py: Access/Principal. app/core/identity.py, app/core/auth.py
--     (`require_session`) and app/api/identity.py: Access/Phone, Sessions and Otp.
--   * app/core/admin_auth.py: Access/Passwords and Admin. `bootstrap`, `login` and `logout` of
--     app/api/admin.py: Access/Login.
--   * app/services/econet_integration.py: Econet/Config, Saving and Client. Its routes of
--     app/api/admin.py: Econet/Console; each request runs by itself.
--   * app/core/crypto.py, security.py and payment_security.py: Access/Crypto.
--
-- The clients for HTTP and SSH, the name server, the XML parser, the encodings, the cipher and the
-- hashes are parameters (the records World, Ssh, Python, Ciphers, Hashing, Env and EconetEnv).
-- Bytes stand as the text that they decode to, the numbers of JSON are integers, and times are in
-- whole seconds.
--
-- Loops are structural recursion, on the rows that a worker claims, on a list or on a value of JSON,
-- and the three tries of a request (Partners/Requests) are recursion on the tries left; no fuel is
-- used. The clients of other services, the rest of the web layer, the AI assistants, the remaining
-- commerce services and the reading of configuration are not modelled. Columns that no modelled
-- function reads back are left out of the rows.
pub mod Access
pub mod Base
pub mod Delivery
pub mod Dispatch
pub mod Econet
pub mod Finance
pub mod Messaging
pub mod Money
pub mod Partners
pub mod Pos
pub mod Risk
pub mod Routing

-- ===== src/Messaging/Outbox.antt =====
-- Outgoing messages: `enqueue_channel` and `claim_messages` of app/services/outbox.py, the delivery
-- receipts and the account health of app/services/whatsapp_reliability.py, and the loop of
-- app/services/whatsapp_outbox_worker.py. `transport` is the client of the messaging service.
pub mod Laws
mod Tests
use text.Mathlib.Text.{◌==◌ as str_eq}
use thuso_wechat_ls.Base.{
  zoom, database_error, ◌&&◌, ◌||◌, not, false, true, ℕ, ◌+◌, ◌*◌, ◌^◌, min, Bool, true, false,
  ◌&&◌, Option, none, some, List, [], ◌∷◌, ◌++◌, String, ◌<>◌, ◌==◌, leb, if◌then◌else◌, or_default,
  is_some, length, Table, find, find_where, put, update_where, claim, for_each, Exec, Result, ok,
  err, Kind, runtime_error, continue,
}
use thuso_wechat_ls.Messaging.Accounts.{Directory, OutboundAccount, given, resolve_outbound_account}

pub data Status : Type 0 where
  pending processing sent failed : Status

-- The keys of the JSON payload that the code reads.
pub record Payload : Type 0 where
  pub body : Option String
  pub buttons : List (String × String)
  pub account_key : Option String
  pub idempotency_key : Option String

pub record Message : Type 0 where
  pub channel : String
  pub recipient : String
  pub message_type : String
  pub payload : Payload
  pub account_key : Option String
  pub idempotency_key : String
  pub trace_id : Option String
  pub status : Status
  pub attempts : ℕ
  pub available_at : ℕ
  pub last_error : Option String
  pub receipt_status : Option String
  pub provider_message_id : Option String

pub record Receipt : Type 0 where
  pub outbox_message_id : ℕ
  pub transport : String
  pub provider_message_id : Option String
  pub status : String

pub record Mail : Type 0 where
  pub messages : Table Message
  pub receipts : List Receipt

abbrev pub has_key : String → ℕ → Message → Bool
has_key key _ m = str_eq m.idempotency_key key

-- A unique index: its columns, and whether it leaves out the rows that a predicate does not hold of.
pub record UniqueIndex : Type 0 where
  pub columns : List String
  pub is_partial : Bool

-- `create unique index ... on outbox_messages(idempotency_key) where idempotency_key is not null`
abbrev pub outbox_indexes : List UniqueIndex
outbox_indexes = record { columns = "idempotency_key" ∷ []; is_partial = true } ∷ []

abbrev pub is_column : String → List String → Bool
is_column name (c ∷ []) = str_eq name c
is_column name l = false

-- For `on conflict(column)` with no predicate PostgreSQL takes a unique index of that column that is
-- not partial.
unfoldable pub infers : String → List UniqueIndex → Bool
infers column [] = false
infers column (i ∷ l) = is_column column i.columns && not i.is_partial || infers column l

-- `insert into outbox_messages ... on conflict(idempotency_key) do nothing`
unfoldable pub insert_message : (new_id : ℕ) → Message → Exec (Table Message) (Unit {0})
unfolding infers
insert_message new_id m t =
    if infers "idempotency_key" outbox_indexes
    then (
      ok tt,
      elim (find_where (has_key m.idempotency_key) t) [ none ↦ put new_id m t | some _ ↦ t ],
    )
    else (
      err database_error
          "there is no unique or exclusion constraint matching the ON CONFLICT specification",
      t,
    )

-- `account_key or payload.get('account_key')`
abbrev pub or_given : Option String → Option String → Option String
or_given a b = elim (given a) [ none ↦ b | some x ↦ some x ]

-- `payload.get('idempotency_key') or f"{channel}:{recipient}:{message_type}:{payload.get('body','')}"`
abbrev pub message_key : String → String → String → Payload → String
message_key channel recipient message_type payload =
    or_default (given payload.idempotency_key)
      (channel <> ":" <> recipient <> ":" <> message_type <> ":" <> or_default payload.body "")

abbrev pub new_message :
    (now : ℕ) → String → String → String → Payload → Option String → Option String → Message
new_message now channel recipient message_type payload account_key trace_id = record {
  channel = channel;
  recipient = recipient;
  message_type = message_type;
  payload = payload;
  account_key = account_key;
  idempotency_key = message_key channel recipient message_type payload;
  trace_id = trace_id;
  status = Status.pending;
  attempts = 0;
  available_at = now;
  last_error = none;
  receipt_status = none;
  provider_message_id = none;
}

-- Once the account is resolved, for a WhatsApp message: its key goes into the payload too.
unfoldable pub enqueue_resolved :
    (now new_id : ℕ)
    → String
    → String
    → String
    → Payload
    → Option String
    → Result OutboundAccount
    → Exec Mail (Unit {0})
unfolding insert_message
enqueue_resolved now new_id channel recipient message_type payload trace_id (err k m) s =
    (err k m, s)
enqueue_resolved now new_id channel recipient message_type payload trace_id (ok o) s =
    zoom (λ t. t.messages) (λ m t. record t { messages = m })
      (insert_message new_id (
        new_message now channel recipient message_type
          (record payload { account_key = some o.account_key }) (some o.account_key) trace_id))
      s

pub enqueue_channel :
    Directory
    → (now new_id : ℕ) → (channel recipient message_type : String) → Payload
    → (account_key trace_id : Option String) → Exec Mail (Unit {0})
unfolding enqueue_resolved
enqueue_channel d now new_id channel recipient message_type payload account_key trace_id s =
    if str_eq channel "whatsapp"
    then enqueue_resolved now new_id channel recipient message_type payload trace_id
        (resolve_outbound_account d recipient (or_given account_key payload.account_key)) s
    else zoom (λ t. t.messages) (λ m t. record t { messages = m })
        (insert_message new_id (
          new_message now channel recipient message_type payload
            (or_given account_key payload.account_key) trace_id))
        s

abbrev pub is_pending : Status → Bool
is_pending Status.pending = true
is_pending _ = false

abbrev pub is_processing : Message → Bool
is_processing m = elim m.status [ Status.processing ↦ true | _ ↦ false ]

abbrev pub is_due : ℕ → Message → Bool
is_due now m = is_pending m.status && leb m.available_at now

abbrev pub start : Message → Message
start m = record m { status = Status.processing; attempts = m.attempts + 1 }

pub claim_messages : (now limit : ℕ) → Table Message → Table Message × Table Message
claim_messages now limit = claim (is_due now) start limit

abbrev pub at_id : ℕ → ℕ → Message → Bool
at_id id k _ = k == id

abbrev pub same_option : Option String → Option String → Bool
same_option (some a) (some b) = str_eq a b
same_option _ _ = false

-- `on conflict(transport,provider_message_id,status) do nothing`; a null conflicts with nothing.
unfoldable pub has_receipt : Receipt → List Receipt → Bool
has_receipt r [] = false
has_receipt r (q ∷ l) =
    if str_eq q.transport r.transport
      && (same_option q.provider_message_id r.provider_message_id && str_eq q.status r.status)
    then true
    else has_receipt r l

abbrev pub receive : String → Option String → Message → Message
receive status provider_message_id m = record m {
  receipt_status = some status;
  provider_message_id = elim m.provider_message_id [ none ↦ provider_message_id | some x ↦ some x ];
}

unfoldable pub record_outbound_receipt :
    (outbox_message_id : ℕ)
    → (transport : String) → (provider_message_id : Option String) → (status : String) → Mail
    → Mail
unfolding has_receipt
record_outbound_receipt id transport provider_message_id status s =
    let r : Receipt = record {
      outbox_message_id = id;
      transport = transport;
      provider_message_id = provider_message_id;
      status = status;
    } in
    record s {
      receipts = if has_receipt r s.receipts then s.receipts else s.receipts ++ (r ∷ []);
      messages = update_where (at_id id) (receive status provider_message_id) s.messages;
    }

abbrev pub mark_sent : Option String → Message → Message
mark_sent provider_id m = record m {
  status = Status.sent;
  receipt_status = some "sent";
  provider_message_id = provider_id;
}

-- `case when attempts>=5 then 'failed' else 'pending' end`, and the delay
-- `least(300,power(2,attempts)::int*5)`.
abbrev pub put_back : (now : ℕ) → String → Message → Message
put_back now error m = record m {
  status = if leb 5 m.attempts then Status.failed else Status.pending;
  last_error = some error;
  available_at = now + min 300 (2 ^ m.attempts * 5);
}

-- The three calls of the transport.
pub data Call : Type 0 where
  send_buttons : (account recipient body : String) → List (String × String) → Call
  request_location : (account recipient body : String) → Call
  send_text : (account recipient body : String) → Call

abbrev pub call_for : String → Message → Call
call_for account m =
    if str_eq m.message_type "interactive"
    then send_buttons account m.recipient (or_default m.payload.body "") m.payload.buttons
    else if str_eq m.message_type "location_request"
    then request_location account m.recipient
        (or_default m.payload.body "Please share your location.")
    else send_text account m.recipient (or_default m.payload.body "")

-- `row.get('account_key') or p.get('account_key') or get_settings().whatsapp_operator_account_key`
abbrev pub account_of : (operator_account_key : String) → Message → Option String
account_of operator_account_key m =
    given (or_given (or_given m.account_key m.payload.account_key) (some operator_account_key))

module _ (name operator_account_key : String) (transport : Call → Result (Option String)) where
  abbrev pub send : Message → Result (Option String)
  send m = elim (account_of operator_account_key m) [
    | none ↦ err runtime_error "outbound WhatsApp account_key is required"
    | some account ↦ transport (call_for account m)
  ]

  -- The two branches of the `try`.
  abbrev pub settle : (now id : ℕ) → Result (Option String) → Mail → Mail
  settle now id (ok provider_id) s =
      record_outbound_receipt id name provider_id "sent"
        (record s { messages = update_where (at_id id) (mark_sent provider_id) s.messages })
  settle now id (err k m) s = record s {
    messages = update_where (at_id id) (put_back now m) s.messages;
  }

  pub deliver_once : (now limit : ℕ) → Mail → ℕ × Mail
  unfolding for_each record_outbound_receipt
  deliver_once now limit s =
      let (rows, messages) = claim_messages now limit s.messages in
      (
        length rows,
        for_each (λ id m. settle now id (send m)) rows (record s { messages = messages }),
      )

pub data HealthState : Type 0 where
  healthy degraded circuit_open : HealthState

pub record Health : Type 0 where
  pub transport : String
  pub state : HealthState
  pub consecutive_failures : ℕ
  pub last_error : Option String

pub health_success : (wa_account_id : ℕ) → String → Table Health → Table Health
health_success id transport = put id (record {
  transport = transport;
  state = HealthState.healthy;
  consecutive_failures = 0;
  last_error = none;
})

abbrev pub fail_once : String → String → Option Health → Health
fail_once transport error none = record {
  transport = transport;
  state = HealthState.degraded;
  consecutive_failures = 1;
  last_error = some error;
}
fail_once transport error (some h) = record {
  transport = transport;
  state =
      if leb 5 (h.consecutive_failures + 1) then HealthState.circuit_open else HealthState.degraded;
  consecutive_failures = h.consecutive_failures + 1;
  last_error = some error;
}

pub health_failure : (wa_account_id : ℕ) → String → String → Table Health → Table Health
health_failure id transport error t = put id (fail_once transport error (find id t)) t

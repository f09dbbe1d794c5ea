-- ===== src/Messaging/Inbox.antt =====
-- The durable inbox: app/services/whatsapp_reliability.py, and the loop of
-- app/services/whatsapp_inbox_worker.py. `now` is the clock of the database in seconds; the payload
-- is its JSON text. What the handler of a message does to other tables is the router's affair:
-- here it returns or raises.
pub mod Laws
mod Tests
pub mod Crash
use text.Mathlib.Text.{◌==◌ as str_eq}
use thuso_wechat_ls.Base.{
  ℕ, ◌+◌, ◌*◌, ◌^◌, min, max, Bool, true, false, ◌&&◌, Option, none, some, List, [], ◌∷◌, String,
  ◌==◌, ltb, leb, if◌then◌else◌, Table, find, database_error, ◌-◌, find_where, put, update_where,
  select_where, claim, for_each, length, Exec, Result, ok, err,
}

pub data Status : Type 0 where
  received processing processed failed dead_letter : Status

pub record InboxEvent : Type 0 where
  pub transport : String
  pub account_key : Option String
  pub external_event_id : String
  pub event_type : String
  pub payload : String
  pub status : Status
  pub attempts : ℕ
  pub available_at : ℕ
  pub locked_at : Option ℕ
  pub last_error : Option String

abbrev pub Inbox : Type 0
Inbox = Table InboxEvent

-- `MAX_ATTEMPTS`
abbrev pub max_attempts : ℕ
max_attempts = 8

-- `status in ('received','failed')`
abbrev pub is_waiting : Status → Bool
is_waiting Status.received = true
is_waiting Status.failed = true
is_waiting _ = false

abbrev pub is_processing : Status → Bool
is_processing Status.processing = true
is_processing _ = false

-- Two keys are equal for the unique constraint: a null equals nothing.
abbrev pub equal_keys : Option String → Option String → Bool
equal_keys (some a) (some b) = str_eq a b
equal_keys _ _ = false

-- `unique(transport,account_key,external_event_id)`
abbrev pub conflicts : String → Option String → String → ℕ → InboxEvent → Bool
conflicts transport account_key external_id _ e =
    str_eq e.transport transport
    && (equal_keys e.account_key account_key && str_eq e.external_event_id external_id)

abbrev pub new_event : (now : ℕ) → String → Option String → String → String → String → InboxEvent
new_event now transport account_key external_id event_type payload = record {
  transport = transport;
  account_key = account_key;
  external_event_id = external_id;
  event_type = event_type;
  payload = payload;
  status = Status.received;
  attempts = 0;
  available_at = now;
  locked_at = none;
  last_error = none;
}

-- A new event, or the one that is there; the flag says whether it is new.
pub record_inbox_event :
    (now new_id : ℕ) → String → Option String → String → String → String → Exec Inbox (ℕ × Bool)
record_inbox_event now new_id transport account_key external_id event_type payload t =
    elim (find_where (conflicts transport account_key external_id) t) [
      | some (id, _) ↦ (ok (id, false), t)
      | none ↦ (
        ok (new_id, true),
        put new_id (new_event now transport account_key external_id event_type payload) t,
      )
    ]

abbrev pub start : ℕ → InboxEvent → InboxEvent
start now e = record e {
  status = Status.processing;
  attempts = e.attempts + 1;
  locked_at = some now;
}

pub mark_inbox_processing : (now event_id : ℕ) → Inbox → Inbox
mark_inbox_processing now event_id =
    update_where (λ k e. k == event_id && is_waiting e.status) (start now)

abbrev pub finish : InboxEvent → InboxEvent
finish e = record e { status = Status.processed; locked_at = none; last_error = none }

abbrev pub at_id : ℕ → ℕ → InboxEvent → Bool
at_id event_id k _ = k == event_id

pub mark_inbox_processed : (event_id : ℕ) → Inbox → Inbox
mark_inbox_processed event_id = update_where (at_id event_id) finish

-- `power(2,attempts)::int*5` is out of the range of an `integer`.
abbrev pub overflows : ℕ → Bool
overflows attempts = ltb (2 ^ 31 - 1) (2 ^ attempts * 5)

-- `least(900,greatest(5,power(2,attempts)::int*5))`, in that range
abbrev pub retry_delay : ℕ → ℕ
retry_delay attempts = min 900 (max 5 (2 ^ attempts * 5))

abbrev pub fail : ℕ → String → InboxEvent → InboxEvent
fail now error e = record e {
  status = if leb max_attempts e.attempts then Status.dead_letter else Status.failed;
  available_at = now + retry_delay e.attempts;
  locked_at = none;
  last_error = some error;
}

-- The error's text is stored as it comes; the code cuts it at 2000 characters. An overflow raises, and
-- leaves the row as it is.
abbrev pub fail_row : (now event_id : ℕ) → String → Option InboxEvent → Exec Inbox (Unit {0})
fail_row now event_id error none t = (ok tt, t)
fail_row now event_id error (some e) t =
    if overflows e.attempts
    then (err database_error "integer out of range", t)
    else (ok tt, update_where (at_id event_id) (fail now error) t)

pub mark_inbox_failed : (now event_id : ℕ) → String → Exec Inbox (Unit {0})
mark_inbox_failed now event_id error t = fail_row now event_id error (find event_id t) t

abbrev pub is_claimable : ℕ → InboxEvent → Bool
is_claimable now e = is_waiting e.status && leb e.available_at now

pub claim_inbox_events : (now limit : ℕ) → Inbox → Inbox × Inbox
claim_inbox_events now = claim (is_claimable now) (start now)

-- `status='processing' and locked_at < now() - make_interval(secs=>:seconds)`; a null passes no test.
abbrev pub is_stale : (now seconds : ℕ) → InboxEvent → Bool
is_stale now seconds e =
    is_processing e.status && (elim e.locked_at [ none ↦ false | some l ↦ ltb (l + seconds) now ])

abbrev pub expire_lease : ℕ → InboxEvent → InboxEvent
expire_lease now e = record e {
  status = Status.failed;
  available_at = now;
  locked_at = none;
  last_error = elim e.last_error [ none ↦ some "worker lease expired" | some x ↦ some x ];
}

-- The number of events that came back, and the inbox.
pub recover_stale_inbox_events : (now seconds : ℕ) → Inbox → ℕ × Inbox
recover_stale_inbox_events now seconds t = (
  length (select_where (λ _ e. is_stale now seconds e) t),
  update_where (λ _ e. is_stale now seconds e) (expire_lease now) t,
)

module _ (handle : ℕ → InboxEvent → Result (Unit {0})) where
  abbrev pub counted : ℕ → Result (Unit {0}) × Inbox → Result ℕ × Inbox
  counted n (ok _, t) = (ok n, t)
  counted n (err k m, t) = (err k m, t)

  -- The body of the worker's loop, for one claimed event. What raises in the handling of an error ends
  -- the loop: the rows behind it are not visited.
  abbrev pub settle : (now event_id : ℕ) → Result (Unit {0}) → Result ℕ × Inbox → Result ℕ × Inbox
  settle now event_id r (err k m, t) = (err k m, t)
  settle now event_id (ok _) (ok n, t) = (ok (n + 1), mark_inbox_processed event_id t)
  settle now event_id (err k m) (ok n, t) = counted n (mark_inbox_failed now event_id m t)

  -- `drain_once`: stale leases come back, at most `limit` events are claimed, and each is settled.
  pub drain_once : (now limit : ℕ) → Exec Inbox ℕ
  unfolding for_each
  drain_once now limit t =
      let (rows, t') = claim_inbox_events now limit (recover_stale_inbox_events now 300 t).1 in
      for_each (λ id e. settle now id (handle id e)) rows (ok 0, t')

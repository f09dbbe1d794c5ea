-- ===== src/Messaging/Events.antt =====
-- The marketplace's event log and the dispatch leases: app/services/realtime.py, `enqueue` of
-- app/services/outbox.py, and `relay_once` of app/services/realtime_worker.py. `publish` is the
-- Redis stream: it answers with the identifier of the entry, or raises.
pub mod Laws
mod Tests
use text.Mathlib.Text.{◌==◌ as str_eq}
use thuso_wechat_ls.Base.{
  ℕ, ◌+◌, ◌*◌, ◌^◌, min, Bool, true, false, ◌&&◌, ◌||◌, Option, none, some, List, String, ◌==◌, leb,
  if◌then◌else◌, Table, find, put, update_where, claim, for_each, Result, ok, err,
}

pub data Status : Type 0 where
  pending processing published failed : Status

pub record Event : Type 0 where
  pub aggregate_type : String
  pub aggregate_id : ℕ
  pub event_type : String
  pub payload : String
  pub status : Status
  pub attempts : ℕ
  pub available_at : ℕ
  pub locked_at : Option ℕ
  pub last_error : Option String

pub record Logged : Type 0 where
  pub event_type : String
  pub aggregate_type : String
  pub aggregate_id : ℕ
  pub stream_id : String

pub record Log : Type 0 where
  pub events : Table Event
  -- `marketplace_event_log`, one row for each event
  pub published : Table Logged

pub enqueue : (now new_id : ℕ) → String → ℕ → String → String → Log → Log
enqueue now new_id aggregate_type aggregate_id event_type payload s = record s {
  events =
      put new_id
        (record {
          aggregate_type = aggregate_type;
          aggregate_id = aggregate_id;
          event_type = event_type;
          payload = payload;
          status = Status.pending;
          attempts = 0;
          available_at = now;
          locked_at = none;
          last_error = none;
        })
        s.events;
}

abbrev pub is_pending : Status → Bool
is_pending Status.pending = true
is_pending _ = false

abbrev pub is_processing : Event → Bool
is_processing e = elim e.status [ Status.processing ↦ true | _ ↦ false ]

abbrev pub is_due : ℕ → Event → Bool
is_due now e = is_pending e.status && leb e.available_at now

abbrev pub start : ℕ → Event → Event
start now e = record e {
  status = Status.processing;
  attempts = e.attempts + 1;
  locked_at = some now;
}

pub claim_outbox_events : (now limit : ℕ) → Table Event → Table Event × Table Event
claim_outbox_events now = claim (is_due now) (start now)

abbrev pub at_id : ℕ → ℕ → Event → Bool
at_id id k _ = k == id

abbrev pub finish : Event → Event
finish e = record e { status = Status.published; locked_at = none; last_error = none }

abbrev pub logged : String → Event → Logged
logged stream_id e = record {
  event_type = e.event_type;
  aggregate_type = e.aggregate_type;
  aggregate_id = e.aggregate_id;
  stream_id = stream_id;
}

-- A row of the log that is there keeps its columns and takes the new identifier of the stream.
abbrev pub log_event : (event_id : ℕ) → String → Option Event → Table Logged → Table Logged
log_event event_id stream_id none l = l
log_event event_id stream_id (some e) l = elim (find event_id l) [
  | none ↦ put event_id (logged stream_id e) l
  | some old ↦ put event_id (record old { stream_id = stream_id }) l
]

unfoldable pub mark_event_published : (event_id : ℕ) → String → Log → Log
mark_event_published event_id stream_id s =
    let events = update_where (at_id event_id) finish s.events in
    record {
      events = events;
      published = log_event event_id stream_id (find event_id events) s.published;
    }

abbrev pub put_back : (now : ℕ) → String → Event → Event
put_back now error e = record e {
  status = if leb 10 e.attempts then Status.failed else Status.pending;
  locked_at = none;
  available_at = now + min 600 (2 ^ min e.attempts 8 * 2);
  last_error = some error;
}

-- The error's text is stored as it comes; the code cuts it at 2000 characters.
unfoldable pub mark_event_failed : (now event_id : ℕ) → String → Log → Log
mark_event_failed now event_id error s = record s {
  events = update_where (at_id event_id) (put_back now error) s.events;
}

module _ (publish : ℕ → Event → Result String) where
  abbrev pub settle : (now event_id : ℕ) → Result String → ℕ × Log → ℕ × Log
  settle now event_id (ok stream_id) (n, s) = (n + 1, mark_event_published event_id stream_id s)
  settle now event_id (err k m) (n, s) = (n, mark_event_failed now event_id m s)

  pub relay_once : (now limit : ℕ) → Log → ℕ × Log
  unfolding for_each mark_event_published mark_event_failed
  relay_once now limit s =
      let (rows, events) = claim_outbox_events now limit s.events in
      for_each (λ id e. settle now id (publish id e)) rows (0, record s { events = events })

pub record Lease : Type 0 where
  pub lease_until : ℕ
  pub owner : String

-- The lease of a request, the key of the table, if it has one.
abbrev pub Leases : Type 0
Leases = ℕ → Option Lease

abbrev pub set_lease : ℕ → Option Lease → Leases → Leases
set_lease request_id l leases = λ r. if r == request_id then l else leases r

-- An insertion that may replace a lease that is over or is the owner's.
pub acquire_dispatch_lease :
    (now request_id : ℕ) → String → (ttl_seconds : ℕ) → Leases → Bool × Leases
acquire_dispatch_lease now request_id owner ttl_seconds leases =
    let l : Lease = record { lease_until = now + ttl_seconds; owner = owner } in
    elim (leases request_id) [
      | none ↦ (true, set_lease request_id (some l) leases)
      | some old ↦
          if leb old.lease_until now || str_eq old.owner owner
          then (true, set_lease request_id (some l) leases)
          else (false, leases)
    ]

pub release_dispatch_lease : (request_id : ℕ) → String → Leases → Leases
release_dispatch_lease request_id owner leases = elim (leases request_id) [
  | none ↦ leases
  | some l ↦ if str_eq l.owner owner then set_lease request_id none leases else leases
]

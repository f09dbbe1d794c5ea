-- ===== src/Delivery.antt =====
-- Delivery jobs: app/services/delivery.py, without the creation of a job and the tracking points,
-- which go through the dispatch. A new status is one of the column's; a text outside of them, which
-- the code refuses as a transition, is excluded by the type. `customer_phone` is the phone of the
-- order's customer, as `lstrip('+')` leaves it, and `dumps` is `json.dumps`.
pub mod Laws
mod Tests
pub mod Progress
pub mod Runs
use text.Mathlib.Text.{◌==◌ as str_eq}
use thuso_wechat_ls.Base.{
  integrity_error, ◌||◌, ℕ, ◌+◌, Bool, true, false, ◌&&◌, ◌||◌, not, Option, none, some, List, [],
  ◌∷◌, ◌++◌, String, ◌<>◌, ◌==◌, if◌then◌else◌, or_default, is_some, Table, find, put, update_where,
  Exec, Result, ok, err, value_error, key_error, zoom, ◌>>=◌, ◌>>◌, pure,
}
use thuso_wechat_ls.Base.Uuid.{uuid_text}
use thuso_wechat_ls.Messaging.Accounts.{Directory, given}
use thuso_wechat_ls.Messaging.Events.{Log, enqueue}
use thuso_wechat_ls.Messaging.Outbox.{Mail, Payload, enqueue_channel}

pub data Status : Type 0 where
  searching assigned at_pickup picked_up in_transit delivered failed cancelled : Status

pub record Job : Type 0 where
  pub service_request_id : ℕ
  pub order_id : Option ℕ
  pub courier_provider_id : Option ℕ
  pub status : Status
  pub failure_reason : Option String

pub data RequestStatus : Type 0 where
  searching offered accepted in_progress completed cancelled : RequestStatus

pub record Request : Type 0 where
  pub status : RequestStatus
  pub accepted_provider_id : Option ℕ
  pub version : ℕ

pub record Proof : Type 0 where
  pub proof_type : String
  pub proof_hash : Option String
  pub metadata : String

pub record JobEvent : Type 0 where
  pub delivery_job_id : ℕ
  pub event_type : String
  pub actor_type : String
  pub actor_id : Option ℕ
  pub payload : String

pub record Logistics : Type 0 where
  pub jobs : Table Job
  pub requests : Table Request
  -- one proof for each job
  pub proofs : Table Proof
  pub job_events : List JobEvent
  pub log : Log
  pub mail : Mail

abbrev pub same_status : Status → Status → Bool
same_status Status.searching Status.searching = true
same_status Status.assigned Status.assigned = true
same_status Status.at_pickup Status.at_pickup = true
same_status Status.picked_up Status.picked_up = true
same_status Status.in_transit Status.in_transit = true
same_status Status.delivered Status.delivered = true
same_status Status.failed Status.failed = true
same_status Status.cancelled Status.cancelled = true
same_status _ _ = false

-- The value of the status column.
abbrev pub status_text : Status → String
status_text Status.searching = "searching"
status_text Status.assigned = "assigned"
status_text Status.at_pickup = "at_pickup"
status_text Status.picked_up = "picked_up"
status_text Status.in_transit = "in_transit"
status_text Status.delivered = "delivered"
status_text Status.failed = "failed"
status_text Status.cancelled = "cancelled"

-- `{next,'cancelled','failed'}`
abbrev pub next_or_ended : Status → Status → Bool
next_or_ended next new =
    same_status new next || (same_status new Status.cancelled || same_status new Status.failed)

-- `new_status in TRANSITIONS.get(row['status'],set())`
abbrev pub may_become : Status → Status → Bool
may_become Status.searching new = next_or_ended Status.assigned new
may_become Status.assigned new = next_or_ended Status.at_pickup new
may_become Status.at_pickup new = next_or_ended Status.picked_up new
may_become Status.picked_up new = next_or_ended Status.in_transit new
may_become Status.in_transit new = next_or_ended Status.delivered new
may_become _ new = false

abbrev pub is_searching_or_offered : RequestStatus → Bool
is_searching_or_offered RequestStatus.searching = true
is_searching_or_offered RequestStatus.offered = true
is_searching_or_offered _ = false

abbrev pub is_accepted : RequestStatus → Bool
is_accepted RequestStatus.accepted = true
is_accepted _ = false

abbrev pub is_accepted_or_in_progress : RequestStatus → Bool
is_accepted_or_in_progress RequestStatus.accepted = true
is_accepted_or_in_progress RequestStatus.in_progress = true
is_accepted_or_in_progress _ = false

-- `status not in ('completed','cancelled')`
abbrev pub is_open_request : RequestStatus → Bool
is_open_request RequestStatus.completed = false
is_open_request RequestStatus.cancelled = false
is_open_request _ = true

-- `update service_requests set status=...,version=version+1 where id=:id and p`
abbrev pub move_request : ℕ → (RequestStatus → Bool) → RequestStatus → Table Request → Table Request
move_request id p new =
    update_where (λ k r. k == id && p r.status)
      (λ r. record r { status = new; version = r.version + 1 })

abbrev pub at_job : ℕ → ℕ → Job → Bool
at_job id k _ = k == id

abbrev pub set_job : ℕ → (Job → Job) → Table Job → Table Job
set_job id f = update_where (at_job id) f

-- What each branch sets in the job's row.
abbrev pub enter : Status → Option String → Job → Job
enter Status.failed reason j = record j {
  status = Status.failed;
  failure_reason = some (or_default (given reason) "Delivery failed");
}
enter Status.cancelled reason j = record j {
  status = Status.cancelled;
  failure_reason = some (or_default (given reason) "Delivery cancelled");
}
enter new reason j = record j { status = new }

-- What each branch does to the service request.
abbrev pub enter_request : Status → ℕ → Table Request → Table Request
enter_request Status.delivered id =
    move_request id is_accepted_or_in_progress RequestStatus.completed
enter_request Status.cancelled id = move_request id is_open_request RequestStatus.cancelled
enter_request Status.picked_up id = move_request id is_accepted RequestStatus.in_progress
enter_request _ id = λ t. t

unfoldable pub apply_status : (job_id : ℕ) → Job → Status → Option String → Logistics → Logistics
apply_status job_id row new reason s = record s {
  jobs = set_job job_id (enter new reason) s.jobs;
  requests = enter_request new row.service_request_id s.requests;
}

-- `labels[new_status]`, where there is one.
abbrev pub label : Status → Option String → Option String
label Status.at_pickup reason = some "Courier is at pickup."
label Status.picked_up reason = some "Your order has been picked up."
label Status.in_transit reason = some "Your order is on the way."
label Status.delivered reason = some "Your order has been delivered."
label Status.failed reason =
    some ("Delivery failed: " <> or_default (given reason) "please contact support" <> ".")
label Status.cancelled reason = some "Delivery was cancelled."
label _ reason = none

-- The identifiers that the database generates for a call, and its clock.
pub record Fresh : Type 0 where
  pub now : ℕ
  pub event_id : ℕ
  pub message_id : ℕ

module _ (directory : Directory) (customer_phone : ℕ → Option String)
    (dumps : List (String × String) → String) where
  -- `_event`
  unfoldable pub record_event :
      Fresh
      → (job_id : ℕ) → String
      → String
      → Option ℕ
      → List (String × String)
      → Logistics
      → Logistics
  record_event f job_id event_type actor_type actor_id payload s = record s {
    job_events =
        s.job_events
        ++ (record {
          delivery_job_id = job_id;
          event_type = event_type;
          actor_type = actor_type;
          actor_id = actor_id;
          payload = dumps payload;
        }
            ∷ []);
    log =
        enqueue f.now f.event_id "delivery_job" job_id ("delivery." <> event_type) (dumps payload)
          s.log;
  }

  unfoldable pub assign_row : Fresh → (job_id courier_id : ℕ) → Option Job → Exec Logistics Job
  unfolding record_event
  assign_row f job_id courier_id none s = (err value_error "delivery is no longer assignable", s)
  assign_row f job_id courier_id (some j) s =
      let j' : Job = record j { courier_provider_id = some courier_id; status = Status.assigned } in
      if same_status j.status Status.searching
      then (
        ok j',
        record_event f job_id "assigned" "provider" (some courier_id)
            (("courier_id", uuid_text courier_id) ∷ [])
            (record s {
              jobs = put job_id j' s.jobs;
              requests =
                  update_where
                    (λ k r. k == j.service_request_id && is_searching_or_offered r.status)
                    (λ r. record {
                      status = RequestStatus.accepted;
                      accepted_provider_id = some courier_id;
                      version = r.version + 1;
                    })
                    s.requests;
            }),
      )
      else (err value_error "delivery is no longer assignable", s)

  pub assign_courier : Fresh → (job_id courier_id : ℕ) → Exec Logistics Job
  unfolding assign_row
  assign_courier f job_id courier_id s = assign_row f job_id courier_id (find job_id s.jobs) s

  -- `{'job_id':...,'status':new_status,'reason':reason} if reason else {'job_id':...,'status':...}`
  abbrev pub transition_payload : ℕ → Status → Option String → List (String × String)
  transition_payload job_id new reason =
      ("job_id", uuid_text job_id)
      ∷ ("status", status_text new)
      ∷ (elim (given reason) [ none ↦ [] | some r ↦ ("reason", r) ∷ [] ])

  -- The message to the customer, whose label may be missing.
  unfoldable pub notify :
      Fresh → (job_id : ℕ) → Status → Option String → Option String → Exec Logistics (Unit {0})
  notify f job_id new none reason s = (ok tt, s)
  notify f job_id new (some phone) reason s = elim (label new reason) [
    | none ↦ (err key_error (status_text new), s)
    | some text ↦
        zoom (λ t. t.mail) (λ m t. record t { mail = m })
          (enqueue_channel directory f.now f.message_id "whatsapp" phone "text"
            (record {
              body = some ("Delivery " <> uuid_text job_id <> ": " <> text);
              buttons = [];
              account_key = none;
              idempotency_key = none;
            })
            none none)
          s
  ]

  abbrev pub is_courier : ℕ → Option ℕ → Bool
  is_courier courier_id none = false
  is_courier courier_id (some c) = c == courier_id

  -- The changes once the guards have let the transition through, and the message.
  unfoldable pub finish_transition :
      Fresh → (job_id courier_id : ℕ) → Job → Status → Option String → Exec Logistics (Unit {0})
  unfolding apply_status record_event notify
  finish_transition f job_id courier_id row new reason s =
      notify f job_id new (customer_phone job_id) reason (
        record_event f job_id (status_text new) "provider" (some courier_id)
          (transition_payload job_id new reason) (apply_status job_id row new reason s))

  unfoldable pub transition_row :
      Fresh
      → (job_id courier_id : ℕ) → Option Job
      → Status
      → Option String
      → Exec Logistics (Unit {0})
  unfolding finish_transition
  transition_row f job_id courier_id none new reason s =
      (err value_error "delivery job not found", s)
  transition_row f job_id courier_id (some row) new reason s =
      if not (is_courier courier_id row.courier_provider_id)
      then (err value_error "courier is not assigned", s)
      else if not (may_become row.status new)
      then (
        err value_error
            ("cannot transition " <> status_text row.status <> " to " <> status_text new),
        s,
      )
      else if same_status new Status.delivered && not (is_some (find job_id s.proofs))
      then (err value_error "proof of delivery is required before marking delivered", s)
      else finish_transition f job_id courier_id row new reason s

  -- What `get_delivery` reads at the end is the job's row of the tables.
  pub transition_delivery :
      Fresh → (job_id courier_id : ℕ) → Status → Option String → Exec Logistics (Unit {0})
  unfolding transition_row
  transition_delivery f job_id courier_id new reason s =
      transition_row f job_id courier_id (find job_id s.jobs) new reason s

  -- The insertion of a proof; on a conflict the hash of a receipt does not replace the old one.
  abbrev pub merge_receipt : String → Option Proof → Proof
  merge_receipt metadata none = record {
    proof_type = "recipient_confirmation";
    proof_hash = none;
    metadata = metadata;
  }
  merge_receipt metadata (some p) = record p {
    proof_type = "recipient_confirmation";
    metadata = metadata;
  }

  -- `is_customer`: the order of the job is the user's.
  pub confirm_delivery_receipt :
      Fresh → (job_id user_id : ℕ) → (is_customer : Option ℕ → Bool) → Exec Logistics Proof
  unfolding record_event
  confirm_delivery_receipt f job_id user_id is_customer s = elim (find job_id s.jobs) [
    | none ↦ (err value_error "delivery is not available for customer confirmation", s)
    | some j ↦
        let p =
          merge_receipt (dumps (("confirmed_via", "whatsapp") ∷ ("actor", "customer") ∷ []))
            (find job_id s.proofs) in
        if is_customer j.order_id && same_status j.status Status.in_transit
        then (
          ok p,
          record_event f job_id "proof_recorded" "customer" (some user_id)
              (("proof_type", "recipient_confirmation") ∷ [])
              (record s { proofs = put job_id p s.proofs }),
        )
        else (err value_error "delivery is not available for customer confirmation", s)
  ]

  -- `check(proof_type in ('otp','photo','signature','recipient_confirmation'))`
  abbrev pub is_proof_type : String → Bool
  is_proof_type t =
      str_eq t "otp"
      || str_eq t "photo"
      || str_eq t "signature"
      || str_eq t "recipient_confirmation"

  pub add_proof :
      Fresh
      → (job_id courier_id : ℕ) → (proof_type : String) → Option String
      → List (String × String)
      → Exec Logistics Proof
  unfolding record_event
  add_proof f job_id courier_id proof_type proof_hash metadata s = elim (find job_id s.jobs) [
    | none ↦ (err value_error "delivery must be in transit", s)
    | some j ↦
        let p : Proof = record {
          proof_type = proof_type;
          proof_hash = proof_hash;
          metadata = dumps metadata;
        } in
        if is_courier courier_id j.courier_provider_id && same_status j.status Status.in_transit
        then (if is_proof_type proof_type
            then (
              ok p,
              record_event f job_id "proof_recorded" "provider" (some courier_id)
                  (("proof_type", proof_type) ∷ []) (record s { proofs = put job_id p s.proofs }),
            )
            else (err integrity_error "delivery_proofs_proof_type_check", s))
        else (err value_error "delivery must be in transit", s)
  ]

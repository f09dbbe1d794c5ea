-- ===== src/Delivery/Tests.antt =====
-- Runs of a delivery.
use thuso_wechat_ls.Base.{
  ℕ, is_ok, false, ◌≤◌, ◌≡◌, refl, Option, none, some, List, [], ◌∷◌, String, find, update_where,
}
use thuso_wechat_ls.Messaging.Accounts.{Directory}
use thuso_wechat_ls.Delivery.{
  Status, Job, Logistics, Fresh, transition_delivery, transition_row, finish_transition,
  apply_status, record_event, notify, assign_courier,
}
use thuso_wechat_ls.Delivery.Laws.{
  IsTransition, transition_delivery_guarded, transition_delivery_unnotified,
}
use thuso_wechat_ls.Delivery.Progress.{IsSound, rank}
use thuso_wechat_ls.Delivery.Runs.{Run, done, after, assigns, transits, Run-IsSound}

abbrev directory : Directory
directory = record { accounts = []; identities = []; operator_account_key = "" }

abbrev phone : ℕ → Option String
phone job_id = none

abbrev dumps : List (String × String) → String
dumps payload = "{}"

abbrev searching_job : Job
searching_job = record {
  service_request_id = 5;
  order_id = some 6;
  courier_provider_id = none;
  status = Status.searching;
  failure_reason = none;
}

abbrev logistics_of : Job → Logistics
logistics_of job = record {
  jobs = (1, job) ∷ [];
  requests = [];
  proofs = [];
  job_events = [];
  log = record { events = []; published = [] };
  mail = record { messages = []; receipts = [] };
}

abbrev start : Logistics
start = logistics_of searching_job

abbrev assigned_job : Logistics
assigned_job =
    logistics_of (record searching_job { courier_provider_id = some 9; status = Status.assigned })

abbrev fresh : Fresh
fresh = record { now = 10; event_id = 20; message_id = 30 }

-- The courier is assigned and arrives at the pickup.
abbrev assigned_then_there : Logistics
assigned_then_there =
    (transition_delivery directory phone dumps fresh 1 9 Status.at_pickup none
      (assign_courier directory phone dumps fresh 1 9 start).1).1

two_calls-Run : Run directory phone dumps start assigned_then_there
two_calls-Run = after (assigns fresh 1 9) (after (transits fresh 1 9 Status.at_pickup none) done)

Run-IsSound_example :
    (IsSound start.jobs start.proofs → IsSound assigned_then_there.jobs assigned_then_there.proofs)
    × ((k : ℕ) (j : Job)
        → find k start.jobs ≡ some j
        → (j' : Job) × (find k assigned_then_there.jobs ≡ some j')
          × (rank j.status ≤ rank j'.status)
          × (rank j.status ≡ 5 → j'.status ≡ j.status))
Run-IsSound_example =
    Run-IsSound directory phone dumps {s = start} {t = assigned_then_there} (two_calls-Run)

transition_delivery_guarded_example :
    (row : Job) × (IsTransition directory phone dumps) 1 9 row Status.at_pickup none assigned_job
      (transition_delivery directory phone dumps fresh 1 9 Status.at_pickup none assigned_job).1
unfolding transition_delivery transition_row finish_transition apply_status record_event notify find
    update_where
transition_delivery_guarded_example =
    transition_delivery_guarded directory phone dumps fresh 1 9 Status.at_pickup none assigned_job
      refl

abbrev known_phone : ℕ → Option String
known_phone job_id = some "26650000000"

transition_delivery_unnotified_example :
    is_ok
      (transition_delivery directory known_phone dumps fresh 1 9 Status.at_pickup none
        assigned_job).0
    ≡ false
transition_delivery_unnotified_example =
    transition_delivery_unnotified directory known_phone dumps fresh 1 9 Status.at_pickup none
      assigned_job "26650000000" refl

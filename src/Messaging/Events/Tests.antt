-- ===== src/Messaging/Events/Tests.antt =====
-- Runs of the event relay and of the leases.
use thuso_wechat_ls.Base.{
  ℕ, ◌≡◌, refl, true, false, none, [], ◌∷◌, String, arith, find, Settled, Result, ok,
}
use thuso_wechat_ls.Messaging.Events.{
  Status, Event, Log, Leases, is_processing, acquire_dispatch_lease, release_dispatch_lease,
}
use thuso_wechat_ls.Messaging.Events.Laws.{acquire_dispatch_lease_exclusive}

abbrev log : Log
log = record {
  events =
      (
        6,
        record {
          aggregate_type = "delivery_job";
          aggregate_id = 3;
          event_type = "delivery.created";
          payload = "{}";
          status = Status.pending;
          attempts = 0;
          available_at = 10;
          locked_at = none;
          last_error = none;
        },
      )
      ∷ [];
  published = [];
}

abbrev free : Leases
free = λ r. none

abbrev publish : ℕ → Event → Result String
publish id e = ok "1-0"

none_processing : (k : ℕ) → Settled is_processing k log.events
unfolding find
none_processing k e found = ground arith

acquire_dispatch_lease_exclusive_example :
    let s' = (acquire_dispatch_lease 100 3 "a:1" 30 free).1 in
    (acquire_dispatch_lease 120 3 "b:2" 30 s' ≡ (false, s'))
    × (release_dispatch_lease 3 "b:2" s' ≡ s')
    × ((acquire_dispatch_lease 120 3 "b:2" 30 (release_dispatch_lease 3 "a:1" s')).0 ≡ true)
unfolding acquire_dispatch_lease
acquire_dispatch_lease_exclusive_example =
    acquire_dispatch_lease_exclusive 100 120 30 30 3 "a:1" "b:2" free refl (omega arith) refl

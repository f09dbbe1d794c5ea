-- ===== src/Messaging/Events/Laws.antt =====
-- A relay settles what it claims and logs what it publishes; a lease has one owner.
use text.Mathlib.Text.{◌==◌ as str_eq}
use text.Mathlib.TextEquality.{eq_iff}
use thuso_wechat_ls.Base.{
  ℕ, ◌+◌, ◌<◌, ◌≡◌, refl, true, false, String, arith, Option-cases, inl, inr, find-update_where,
  Settled, claim-for_each-Settled, claim, Result, ok, err,
}
use thuso_wechat_ls.Messaging.Events.{
  Event, Log, Leases, claim_outbox_events, is_due, start, finish, put_back, at_id, is_processing,
  settle, relay_once, mark_event_published, mark_event_failed, acquire_dispatch_lease,
  release_dispatch_lease,
}

module _ (publish : ℕ → Event → Result String) where
  settle_keeps :
      (now k id : ℕ) (r : Result String) (s : ℕ × Log)
      → Settled is_processing k s.1.events
      → Settled is_processing k (settle publish now id r s).1.events
  unfolding mark_event_published mark_event_failed
  settle_keeps now k id (ok x) (n, s) h e found =
      ground (arith, find-update_where (at_id id) finish k s.events, h e)
  settle_keeps now k id (err c m) (n, s) h e found =
      ground (arith, find-update_where (at_id id) (put_back now m) k s.events, h e)

  settle_self :
      (now id : ℕ) (r : Result String) (s : ℕ × Log)
      → Settled is_processing id (settle publish now id r s).1.events
  unfolding mark_event_published mark_event_failed
  settle_self now id (ok x) (n, s) e found =
      ground (arith, find-update_where (at_id id) finish id s.events)
  settle_self now id (err c m) (n, s) e found =
      ground (arith, find-update_where (at_id id) (put_back now m) id s.events)

  -- A relay leaves no event in processing, whichever publications fail, if there was none before.
  relay_once_settles :
      (now limit : ℕ) (s : Log)
      → ((k : ℕ) → Settled is_processing k s.events)
      → (k : ℕ) → Settled is_processing k (relay_once publish now limit s).1.events
  unfolding relay_once claim_outbox_events
  relay_once_settles now limit s h k =
      claim-for_each-Settled (λ t. t.1.events) is_processing (is_due now) (start now)
        (λ id e. settle publish now id (publish id e)) (λ k j e. settle_keeps now k j (publish j e))
        (λ j e. settle_self now j (publish j e)) limit k s.events
        (0, record s { events = (claim (is_due now) (start now) limit s.events).1 }) refl (h k)

-- While a lease runs nobody else acquires it, and nobody else's release ends it; once its owner
-- releases it anyone acquires it.
pub acquire_dispatch_lease_exclusive :
    (now later ttl ttl' request : ℕ) (owner other : String) (s : Leases)
    → (acquire_dispatch_lease now request owner ttl s).0 ≡ true
    → later < now + ttl
    → str_eq owner other ≡ false
    → let s' = (acquire_dispatch_lease now request owner ttl s).1 in
      (acquire_dispatch_lease later request other ttl' s' ≡ (false, s'))
      × (release_dispatch_lease request other s' ≡ s')
      × ((acquire_dispatch_lease later request other ttl'
            (release_dispatch_lease request owner s')).0
          ≡ true)
unfolding acquire_dispatch_lease release_dispatch_lease
acquire_dispatch_lease_exclusive now later ttl ttl' request owner other s h time differ =
    elim (Option-cases (s request)) [
      | inl free ↦ ground (arith, free, (eq_iff owner owner).1 refl)
      | inr (l, held) ↦ ground (arith, held, (eq_iff owner owner).1 refl)
    ]

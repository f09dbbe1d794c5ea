-- ===== src/Messaging/Inbox/Laws.antt =====
-- Deduplication, bounded retries and settlement of what a worker claims.
use native.Mathlib.Omega.{pow_step}
use text.Mathlib.TextEquality.{eq_iff}
use thuso_wechat_ls.Base.{
  ℕ, ◌≡◌, refl, Bool, false, inl, inr, Option-cases, some, String, arith, find_where,
  find_where-put, find-update_where, Settled, claim-for_each-Settled, claim, AllRows,
  AllRows-update_where, AllRows-find, claim-AllRows_after, for_each-keeps, find, update_where, inl,
  inr, Bool-cases, ◌+◌, [], Result, ok, err,
}
use thuso_wechat_ls.Messaging.Inbox.{
  InboxEvent, Inbox, record_inbox_event, conflicts, new_event, finish, at_id, mark_inbox_processed,
  mark_inbox_failed, fail, start, claim_inbox_events, is_claimable, recover_stale_inbox_events,
  settle, drain_once, is_processing, overflows, is_stale, expire_lease,
}

-- Recording an event of a known account twice gives the first identifier, marked as not new, and
-- changes nothing.
record_inbox_event_idem :
    (now later i j : ℕ) (tr key ext ty ty' load load' : String) (t : Inbox) {id : ℕ} {new : Bool}
    → (record_inbox_event now i tr (some key) ext ty load t).0 ≡ ok (id, new)
    → record_inbox_event later j tr
        (some key)
        ext
        ty'
        load'
        (record_inbox_event now i tr (some key) ext ty load t).1
      ≡ (ok (id, false), (record_inbox_event now i tr (some key) ext ty load t).1)
unfolding record_inbox_event
record_inbox_event_idem now later i j tr key ext ty ty' load load' t h =
    elim (Option-cases (find_where (conflicts tr (some key) ext) t)) [
      | inl free ↦ ground (
        arith,
        free,
        (eq_iff tr tr).1 refl,
        (eq_iff key key).1 refl,
        (eq_iff ext ext).1 refl,
        find_where-put (conflicts tr (some key) ext) i (new_event now tr (some key) ext ty load) t
            free,
      )
      | inr (x, found) ↦ ground (arith, found)
    ]

-- One attempt more may overflow, where one less may not.
overflows_suc : (n : ℕ) → overflows (n + 1) ≡ false → overflows n ≡ false
overflows_suc n h = ground (arith, h, pow_step 2 n)

-- The table, as long as the loop goes on.
abbrev view : Result ℕ × Inbox → Inbox
view (ok n, t) = t
view (err k m, t) = []

-- Few attempts: a failure can be written.
abbrev pub IsFew : InboxEvent → Type 0
IsFew e = overflows e.attempts ≡ false

-- The loop goes on, and no failure will overflow.
GoesOn : Result ℕ × Inbox → Type 0
GoesOn (ok n, t) = AllRows IsFew t
GoesOn (err k m, t) = ⊥

-- The count comes back, and the event of this key is not in processing.
abbrev pub Drained : ℕ → Result ℕ × Inbox → Type 0
Drained k (ok n, t) = Settled (λ e. is_processing e.status) k t
Drained k (err c m, t) = ⊥

claim-IsFew :
    (now limit : ℕ) (t : Inbox)
    → AllRows (λ e. overflows (e.attempts + 1) ≡ false) t
    → AllRows IsFew
        (claim (is_claimable now) (start now) limit (recover_stale_inbox_events now 300 t).1).1
unfolding recover_stale_inbox_events
claim-IsFew now limit t few =
    claim-AllRows_after (λ e. overflows (e.attempts + 1) ≡ false) IsFew (is_claimable now)
      (start now) limit (update_where (λ _ e. is_stale now 300 e) (expire_lease now) t) (λ e h. h)
      (λ e h. overflows_suc e.attempts h)
      (AllRows-update_where (λ e. overflows (e.attempts + 1) ≡ false) (λ _ e. is_stale now 300 e)
        (expire_lease now) t (λ k e h _. h) few)

module _ (handle : ℕ → InboxEvent → Result (Unit {0})) where
  settle_keeps :
      (now k id : ℕ) (r : Result (Unit {0})) (s : Result ℕ × Inbox)
      → Settled (λ e. is_processing e.status) k (view s)
      → Settled (λ e. is_processing e.status) k (view (settle handle now id r s))
  unfolding mark_inbox_processed mark_inbox_failed find
  settle_keeps now k id r (err c m, t) h = h
  settle_keeps now k id (ok x) (ok n, t) h =
      (λ e found. ground (arith, find-update_where (at_id id) finish k t, h e))
  settle_keeps now k id (err c m) (ok n, t) h = elim (Option-cases (find id t)) [
    | inl missing ↦ rw missing h
    | inr (e, there) ↦ elim (Bool-cases (overflows e.attempts)) [
      | inl over ↦ rw (there, over) (λ e found. absurd (cc found))
      | inr small ↦
          rw (there, small)
            (λ e found. ground (arith, find-update_where (at_id id) (fail now m) k t, h e))
    ]
  ]

  settle_self :
      (now id : ℕ) (r : Result (Unit {0})) (s : Result ℕ × Inbox)
      → Settled (λ e. is_processing e.status) id (view (settle handle now id r s))
  unfolding mark_inbox_processed mark_inbox_failed find
  settle_self now id r (err c m, t) = (λ e found. absurd (cc found))
  settle_self now id (ok x) (ok n, t) =
      (λ e found. ground (arith, find-update_where (at_id id) finish id t))
  settle_self now id (err c m) (ok n, t) = elim (Option-cases (find id t)) [
    | inl missing ↦ rw missing (λ e found. absurd (cc (found, missing)))
    | inr (e, there) ↦ elim (Bool-cases (overflows e.attempts)) [
      | inl over ↦ rw (there, over) (λ e found. absurd (cc found))
      | inr small ↦
          rw (there, small)
            (λ e found. ground (arith, find-update_where (at_id id) (fail now m) id t))
    ]
  ]

  settle-GoesOn :
      (now id : ℕ) (r : Result (Unit {0})) (s : Result ℕ × Inbox)
      → GoesOn s
      → GoesOn (settle handle now id r s)
  unfolding mark_inbox_processed mark_inbox_failed GoesOn
  settle-GoesOn now id r (err c m, t) h = h
  settle-GoesOn now id (ok x) (ok n, t) h =
      AllRows-update_where IsFew (at_id id) finish t (λ k e few _. few) h
  settle-GoesOn now id (err c m) (ok n, t) h = elim (Option-cases (find id t)) [
    | inl missing ↦ rw missing h
    | inr (e, there) ↦
        rw (there, AllRows-find IsFew id t {v = e} h there)
          (AllRows-update_where IsFew (at_id id) (fail now m) t (λ k e few _. few) h)
  ]

  drained :
      (k : ℕ) (s : Result ℕ × Inbox)
      → GoesOn s
      → Settled (λ e. is_processing e.status) k (view s)
      → Drained k s
  unfolding GoesOn
  drained k (ok n, t) h g = g
  drained k (err c m, t) h g = absurd h

  -- A run of the worker returns, and after it no event is left in processing, whatever the handler
  -- does with each, if none was being processed once the stale leases had come back, and no event,
  -- claimed once more, has so many attempts that the delay of its next one overflows.
  pub drain_once_settles :
      (now limit : ℕ) (t : Inbox)
      → ((k : ℕ) → Settled (λ e. is_processing e.status) k (recover_stale_inbox_events now 300 t).1)
      → AllRows (λ e. overflows (e.attempts + 1) ≡ false) t
      → (k : ℕ) → Drained k (drain_once handle now limit t)
  unfolding drain_once claim_inbox_events recover_stale_inbox_events GoesOn
  drain_once_settles now limit t h few k =
      let stale = (recover_stale_inbox_events now 300 t).1 in
      let step : ℕ → InboxEvent → Result ℕ × Inbox → Result ℕ × Inbox =
        λ id e. settle handle now id (handle id e) in
      drained k (drain_once handle now limit t)
        (for_each-keeps GoesOn step (λ j e. settle-GoesOn now j (handle j e))
          (claim (is_claimable now) (start now) limit stale).0
          (ok 0, (claim (is_claimable now) (start now) limit stale).1)
          (claim-IsFew now limit t few))
        (claim-for_each-Settled view (λ e. is_processing e.status) (is_claimable now) (start now)
          step (λ k j e. settle_keeps now k j (handle j e)) (λ j e. settle_self now j (handle j e))
          limit k stale (ok 0, (claim (is_claimable now) (start now) limit stale).1) refl (h k))

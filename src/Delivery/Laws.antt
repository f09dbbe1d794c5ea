-- ===== src/Delivery/Laws.antt =====
-- What a transition needs and does.
use thuso_wechat_ls.Base.{
  is_ok, false, [], ◌<>◌, ℕ, ◌≡◌, refl, ap, ◌⊎◌, inl, inr, true, ◌&&◌, not, Option, none, some,
  List, String, arith, is_some, ==_iff, find, Bool-cases, Option-cases, ok, err, value_error,
}
use thuso_wechat_ls.Base.Uuid.{uuid_text}
use thuso_wechat_ls.Messaging.Outbox.Laws.{enqueue_channel_refused}
use thuso_wechat_ls.Messaging.Accounts.{Directory}
use thuso_wechat_ls.Delivery.{
  status_text, transition_payload, enter, Status, Job, Logistics, Fresh, same_status, may_become,
  set_job, apply_status, label, record_event, notify, is_courier, finish_transition, transition_row,
  transition_delivery,
}

pub enter-fields :
    (new : Status) (why : Option String) (j : Job)
    → ((enter new why j).status ≡ new)
      × ((enter new why j).courier_provider_id ≡ j.courier_provider_id)
enter-fields Status.searching why j = (refl, refl)
enter-fields Status.assigned why j = (refl, refl)
enter-fields Status.at_pickup why j = (refl, refl)
enter-fields Status.picked_up why j = (refl, refl)
enter-fields Status.in_transit why j = (refl, refl)
enter-fields Status.delivered why j = (refl, refl)
enter-fields Status.failed why j = (refl, refl)
enter-fields Status.cancelled why j = (refl, refl)

module _ (d : Directory) (phone : ℕ → Option String) (dumps : List (String × String) → String) where
  notify_jobs :
      (f : Fresh) (id : ℕ) (new : Status) (to why : Option String) (s : Logistics)
      → ((notify d phone dumps f id new to why s).1.jobs ≡ s.jobs)
        × ((notify d phone dumps f id new to why s).1.proofs ≡ s.proofs)
  unfolding notify
  notify_jobs f id new none why s = (refl, refl)
  notify_jobs f id new (some p) why s = elim (Option-cases (label new why)) [
    | inl missing ↦ rw (missing, notify) (refl, refl)
    | inr (t, there) ↦ rw (there, notify) (refl, refl)
  ]

  finish_transition_jobs :
      (f : Fresh) (id c : ℕ) (row : Job) (new : Status) (why : Option String) (s : Logistics)
      → let s' = (finish_transition d phone dumps f id c row new why s).1 in
        (s'.jobs ≡ set_job id (enter new why) s.jobs) × (s'.proofs ≡ s.proofs)
  unfolding finish_transition record_event apply_status
  finish_transition_jobs f id c row new why s = notify_jobs f id new (phone id) why (
      record_event d phone dumps f id (status_text new) "provider" (some c)
        (transition_payload d phone dumps id new why) (apply_status id row new why s))

  -- The guards of a transition, and what it leaves.
  abbrev pub IsTransition : ℕ → ℕ → Job → Status → Option String → Logistics → Logistics → Type 0
  IsTransition id c row new why s s' =
      (find id s.jobs ≡ some row)
      × (row.courier_provider_id ≡ some c)
      × (may_become row.status new ≡ true)
      × (new ≡ Status.delivered → is_some (find id s.proofs) ≡ true)
      × (s'.jobs ≡ set_job id (enter new why) s.jobs)
      × (s'.proofs ≡ s.proofs)

  courier_is : (c : ℕ) (o : Option ℕ) → is_courier d phone dumps c o ≡ true → o ≡ some c
  courier_is c none h = absurd (cc h)
  courier_is c (some x) h = ap some ((==_iff x c).0 h)

  -- A transition either changes no job and no proof, or all its guards hold.
  pub transition_row-cases :
      (f : Fresh) (id c : ℕ) (o : Option Job) (new : Status) (why : Option String) (s : Logistics)
      → find id s.jobs ≡ o
      → let (r, s') = transition_row d phone dumps f id c o new why s in
        ((s' ≡ s) × ((m : String) × (r ≡ err value_error m)))
        ⊎ ((row : Job) × IsTransition id c row new why s s'
            × (transition_row d phone dumps f id c o new why s
                ≡ finish_transition d phone dumps f id c row new why s))
  unfolding transition_row
  transition_row-cases f id c none new why s e = inl (refl, (_, refl))
  transition_row-cases f id c (some row) new why s e =
      elim (Bool-cases (is_courier d phone dumps c row.courier_provider_id)) [
        | inr other ↦ rw other (inl (refl, (_, refl)))
        | inl courier ↦ elim (Bool-cases (may_become row.status new)) [
          | inr stuck ↦ rw (courier, stuck) (inl (refl, (_, refl)))
          | inl allowed ↦
              elim (Bool-cases
                (same_status new Status.delivered && not (is_some (find id s.proofs)))) [
                  | inl bare ↦ rw (courier, allowed, bare) (inl (refl, (_, refl)))
                  | inr proved ↦
                      let after = finish_transition_jobs f id c row new why s in
                      rw (courier, allowed, proved)
                        (inr (
                          row,
                          (
                            e,
                            courier_is c row.courier_provider_id courier,
                            allowed,
                            ground (arith, proved),
                            after.0,
                            after.1,
                          ),
                          refl,
                        ))
                ]
        ]
      ]

  -- A transition that goes through was the assigned courier's, is one of the table's, had a proof if
  -- it is the delivery, and changes the row of its job alone, as that status does.
  pub transition_delivery_guarded :
      (f : Fresh) (id c : ℕ) (new : Status) (why : Option String) (s : Logistics)
      → (transition_delivery d phone dumps f id c new why s).0 ≡ ok tt
      → (row : Job) × IsTransition id c row new why s
          (transition_delivery d phone dumps f id c new why s).1
  unfolding transition_delivery
  transition_delivery_guarded f id c new why s h =
      elim (transition_row-cases f id c (find id s.jobs) new why s refl) [
        | inl (_, (m, refused)) ↦ absurd (cc (h, refused))
        | inr (row, through, _) ↦ (row, through)
      ]

  notify_refused :
      (f : Fresh) (id : ℕ) (new : Status) (p : String) (why : Option String) (s : Logistics)
      → is_ok (notify d phone dumps f id new (some p) why s).0 ≡ false
  unfolding notify
  notify_refused f id new p why s = elim (Option-cases (label new why)) [
    | inl missing ↦ rw (missing, notify) refl
    | inr (t, there) ↦
        rw (there, notify)
          (enqueue_channel_refused d f.now f.message_id "whatsapp" p "text"
            (record {
              body = some ("Delivery " <> uuid_text id <> ": " <> t);
              buttons = [];
              account_key = none;
              idempotency_key = none;
            })
            none none s.mail).0
  ]

  -- Where the customer of a job has a phone number, no transition of the job goes through, whoever
  -- asks for it and whatever the job's status: the message to the customer cannot be enqueued.
  pub transition_delivery_unnotified :
      (f : Fresh) (id c : ℕ) (new : Status) (why : Option String) (s : Logistics) (p : String)
      → phone id ≡ some p
      → is_ok (transition_delivery d phone dumps f id c new why s).0 ≡ false
  unfolding transition_delivery finish_transition
  transition_delivery_unnotified f id c new why s p e =
      elim (transition_row-cases f id c (find id s.jobs) new why s refl) [
        | inl (_, (m, refused)) ↦ rw refused refl
        | inr (row, _, through) ↦
            rw (through, finish_transition, e)
              (notify_refused f id new p why (
                record_event d phone dumps f id (status_text new) "provider" (some c)
                  (transition_payload d phone dumps id new why) (apply_status id row new why s)))
      ]

-- ===== src/Delivery/Runs.antt =====
-- Any sequence of calls of the delivery service.
use thuso_wechat_ls.Base.{
  ℕ, ◌≡◌, ◌≤◌, refl, ◌⊎◌, inl, inr, Bool, ◌&&◌, Option, none, some, List, String, arith, Table,
  find, put, Bool-cases, Option-cases,
}
use thuso_wechat_ls.Messaging.Accounts.{Directory}
use thuso_wechat_ls.Delivery.{
  is_courier, is_proof_type, Status, Job, Proof, Logistics, Fresh, same_status, transition_row,
  transition_delivery, assign_courier, assign_row, confirm_delivery_receipt, add_proof,
  record_event,
}
use thuso_wechat_ls.Delivery.Laws.{transition_row-cases}
use thuso_wechat_ls.Delivery.Progress.{
  rank, MovesOn, IsSound, set_job-MovesOn, set_job-IsSound, put-MovesOn, put-IsSound,
  put_proof-IsSound, MovesOn-refl,
}

-- What every call keeps.
abbrev pub Progress : Logistics → Logistics → Type 0
Progress s s' = (IsSound s.jobs s.proofs → IsSound s'.jobs s'.proofs) × MovesOn s.jobs s'.jobs

module _ (d : Directory) (phone : ℕ → Option String) (dumps : List (String × String) → String) where
  -- A call of the service, whether it is refused or not.
  pub data Step : Logistics → Logistics → Type 0 where
    assigns :
        {s : Logistics} (f : Fresh) (id c : ℕ) → Step s (assign_courier d phone dumps f id c s).1
    transits :
        {s : Logistics} (f : Fresh) (id c : ℕ) (new : Status) (why : Option String)
        → Step s (transition_delivery d phone dumps f id c new why s).1
    confirms :
        {s : Logistics} (f : Fresh) (id u : ℕ) (is_customer : Option ℕ → Bool)
        → Step s (confirm_delivery_receipt d phone dumps f id u is_customer s).1
    proves :
        {s : Logistics} (f : Fresh) (id c : ℕ) (ty : String) (hash : Option String)
        (load : List (String × String))
        → Step s (add_proof d phone dumps f id c ty hash load s).1

  transition_row-Progress :
      (f : Fresh) (id c : ℕ) (o : Option Job) (new : Status) (why : Option String) (s : Logistics)
      → find id s.jobs ≡ o
      → Progress s (transition_row d phone dumps f id c o new why s).1
  transition_row-Progress f id c o new why s e =
      elim (transition_row-cases d phone dumps f id c o new why s e) [
        | inl (same, _) ↦ rw same ((λ h. h), MovesOn-refl s.jobs)
        | inr (row, (here, _, may, proof, jobs, proofs), _) ↦
            rw (jobs, proofs)
              (
                set_job-IsSound id row new why s.jobs s.proofs here may proof,
                set_job-MovesOn id row new why s.jobs here may,
              )
      ]

  assign_row-Progress :
      (f : Fresh) (id c : ℕ) (o : Option Job) (s : Logistics)
      → find id s.jobs ≡ o
      → Progress s (assign_row d phone dumps f id c o s).1
  unfolding assign_row record_event
  assign_row-Progress f id c none s e = ((λ h. h), MovesOn-refl s.jobs)
  assign_row-Progress f id c (some j) s e =
      elim (Bool-cases (same_status j.status Status.searching)) [
        | inl free ↦ rw free (
          put-IsSound id c j s.jobs s.proofs,
          put-MovesOn id j (record j { courier_provider_id = some c; status = Status.assigned })
              s.jobs e (ground (arith, free)),
        )
        | inr taken ↦ rw taken ((λ h. h), MovesOn-refl s.jobs)
      ]

  -- Only a proof of the job is written, if anything.
  abbrev pub OnlyProof : ℕ → Logistics → Logistics → Type 0
  OnlyProof id s t =
      (t.jobs ≡ s.jobs) × ((t.proofs ≡ s.proofs) ⊎ ((p : Proof) × (t.proofs ≡ put id p s.proofs)))

  OnlyProof-Progress : (id : ℕ) (s t : Logistics) → OnlyProof id s t → Progress s t
  OnlyProof-Progress id s t (jobs, inl proofs) = rw (jobs, proofs) ((λ h. h), MovesOn-refl s.jobs)
  OnlyProof-Progress id s t (jobs, inr (p, proofs)) =
      rw (jobs, proofs) (put_proof-IsSound id p s.jobs s.proofs, MovesOn-refl s.jobs)

  confirms_only :
      (f : Fresh) (id u : ℕ) (is_customer : Option ℕ → Bool) (s : Logistics)
      → OnlyProof id s (confirm_delivery_receipt d phone dumps f id u is_customer s).1
  unfolding confirm_delivery_receipt record_event
  confirms_only f id u is_customer s = elim (Option-cases (find id s.jobs)) [
    | inl missing ↦ rw (missing, confirm_delivery_receipt) (refl, inl refl)
    | inr (j, found) ↦
        elim (Bool-cases (is_customer j.order_id && same_status j.status Status.in_transit)) [
          | inl may ↦ rw (found, may, confirm_delivery_receipt) (refl, inr (_, refl))
          | inr refused ↦ rw (found, refused, confirm_delivery_receipt) (refl, inl refl)
        ]
  ]

  proves_only :
      (f : Fresh) (id c : ℕ) (ty : String) (hash : Option String) (load : List (String × String))
      (s : Logistics)
      → OnlyProof id s (add_proof d phone dumps f id c ty hash load s).1
  unfolding add_proof record_event
  proves_only f id c ty hash load s = elim (Option-cases (find id s.jobs)) [
    | inl missing ↦ rw (missing, add_proof) (refl, inl refl)
    | inr (j, found) ↦
        elim (Bool-cases (
          is_courier d phone dumps c j.courier_provider_id
          && same_status j.status Status.in_transit)) [
            | inl may ↦ elim (Bool-cases (is_proof_type d phone dumps ty)) [
              | inl known ↦ rw (found, may, known, add_proof) (refl, inr (_, refl))
              | inr unknown ↦ rw (found, may, unknown, add_proof) (refl, inl refl)
            ]
            | inr refused ↦ rw (found, refused, add_proof) (refl, inl refl)
          ]
  ]

  Step-Progress : {s t : Logistics} → Step s t → Progress s t
  unfolding assign_courier transition_delivery
  Step-Progress {s} (assigns f id c) = assign_row-Progress f id c (find id s.jobs) s refl
  Step-Progress {s} (transits f id c new why) =
      transition_row-Progress f id c (find id s.jobs) new why s refl
  Step-Progress {s} {t} (confirms f id u is_customer) =
      OnlyProof-Progress id s t (confirms_only f id u is_customer s)
  Step-Progress {s} {t} (proves f id c ty hash load) =
      OnlyProof-Progress id s t (proves_only f id c ty hash load s)

  -- Any sequence of calls.
  pub data Run : Logistics → Logistics → Type 0 where
    done : {s : Logistics} → Run s s
    after : {s t u : Logistics} → Step s t → Run t u → Run s u

  MovesOn-trans : (t u v : Table Job) → MovesOn t u → MovesOn u v → MovesOn t v
  MovesOn-trans t u v first second k j found =
      let (j', found', on) = first k j found in
      let (j'', found'', on') = second k j' found' in (j'', found'', ground (arith, on, on'))

  Run-Progress : {s t : Logistics} → Run s t → Progress s t
  Run-Progress {s} done = ((λ h. h), MovesOn-refl s.jobs)
  Run-Progress {s} {t = u} (after {t = t} step run) =
      let now = Step-Progress step in
      let later = Run-Progress run in
      ((λ h. later.0 (now.0 h)), MovesOn-trans s.jobs t.jobs u.jobs now.1 later.1)

  -- After any sequence of assignments, transitions and proofs, refused calls included, a delivered job
  -- has a proof and a searching one no courier, if it was so at the start; and every job is where it
  -- was or further on, so that a delivered, failed or cancelled one stays as it is.
  pub Run-IsSound :
      {s t : Logistics}
      → Run s t
      → (IsSound s.jobs s.proofs → IsSound t.jobs t.proofs)
        × ((k : ℕ) (j : Job)
            → find k s.jobs ≡ some j
            → (j' : Job) × (find k t.jobs ≡ some j')
              × (rank j.status ≤ rank j'.status)
              × (rank j.status ≡ 5 → j'.status ≡ j.status))
  Run-IsSound {s} {t} run =
      let p = Run-Progress run in
      (
        p.0,
        λ k j found.
            let (j', found', on) = p.1 k j found in
            (j', found', ground (arith, on), ground (arith, on)),
      )

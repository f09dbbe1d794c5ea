-- ===== src/Delivery/Progress.antt =====
-- Jobs only move on, a delivered job has a proof and a searching one no courier: what a change of
-- one row of the tables keeps of it.
use thuso_wechat_ls.Base.{
  ℕ, ◌≡◌, ◌<◌, refl, ◌⊎◌, inl, inr, true, false, Option, none, some, String, arith, ◌==◌,
  if◌then◌else◌, is_some, Table, find, put, find-update_where, find-put, Bool-cases, Option-cases,
}
use thuso_wechat_ls.Delivery.{enter, at_job, Status, Job, Proof, may_become, set_job}
use thuso_wechat_ls.Delivery.Laws.{enter-fields}

-- How far a job is.
abbrev pub rank : Status → ℕ
rank Status.searching = 0
rank Status.assigned = 1
rank Status.at_pickup = 2
rank Status.picked_up = 3
rank Status.in_transit = 4
rank Status.delivered = 5
rank Status.failed = 5
rank Status.cancelled = 5

may_become-rank : (a b : Status) → may_become a b ≡ true → rank a < rank b
may_become-rank a b h = ground arith

-- The row of each job that was there is there, the same or further on.
abbrev pub MovesOn : Table Job → Table Job → Type 0
MovesOn t t' =
    (k : ℕ) (j : Job)
    → find k t ≡ some j
    → (j' : Job) × (find k t' ≡ some j')
      × ((j'.status ≡ j.status) ⊎ (rank j.status < rank j'.status))

pub record IsSound (jobs : Table Job) (proofs : Table Proof) : Type 0 where
  pub unassigned :
      (k : ℕ) (j : Job)
      → find k jobs ≡ some j
      → j.status ≡ Status.searching
      → j.courier_provider_id ≡ none
  pub proved :
      (k : ℕ) (j : Job)
      → find k jobs ≡ some j
      → j.status ≡ Status.delivered
      → is_some (find k proofs) ≡ true

-- The row of a key after a change of one job.
set_job-found :
    (id k : ℕ) (g : Job → Job) (t : Table Job) (j : Job)
    → find k (set_job id g t) ≡ some j
    → (old : Job) × (find k t ≡ some old) × (j ≡ (if k == id then g old else old))
set_job-found id k g t j found = elim (Option-cases (find k t)) [
  | inl missing ↦ absurd (ground (arith, missing, found, find-update_where (at_job id) g k t))
  | inr (old, there) ↦
      (old, there, ground (arith, there, found, find-update_where (at_job id) g k t))
]

pub set_job-MovesOn :
    (id : ℕ) (row : Job) (new : Status) (why : Option String) (t : Table Job)
    → find id t ≡ some row
    → may_become row.status new ≡ true
    → MovesOn t (set_job id (enter new why) t)
set_job-MovesOn id row new why t here may k j found = elim (Bool-cases (k == id)) [
  | inl same ↦ (
    enter new why j,
    ground (arith, same, found, find-update_where (at_job id) (enter new why) k t),
    inr (
        rw (enter-fields new why j).0
          (may_become-rank j.status new (ground (arith, found, here, may, same)))),
  )
  | inr other ↦
      (j, ground (arith, other, found, find-update_where (at_job id) (enter new why) k t), inl refl)
]

may_not_search : (a : Status) → may_become a Status.searching ≡ false
may_not_search a = ground arith

pub set_job-IsSound :
    (id : ℕ) (row : Job) (new : Status) (why : Option String) (t : Table Job) (proofs : Table Proof)
    → find id t ≡ some row
    → may_become row.status new ≡ true
    → (new ≡ Status.delivered → is_some (find id proofs) ≡ true)
    → IsSound t proofs
    → IsSound (set_job id (enter new why) t) proofs
set_job-IsSound id row new why t proofs here may proof s = record {
  unassigned = λ k j found is.
      let (old, there, same) = set_job-found id k (enter new why) t j found in
      elim (Bool-cases (k == id)) [
        | inl e ↦ absurd (
            ground
              (arith, e, same, is, (enter-fields new why old).0, may_not_search row.status, may))
        | inr e ↦ ground (arith, e, same, is, s.unassigned k old there)
      ];
  proved = λ k j found is.
      let (old, there, same) = set_job-found id k (enter new why) t j found in
      elim (Bool-cases (k == id)) [
        | inl e ↦ ground (arith, e, same, is, (enter-fields new why old).0, proof)
        | inr e ↦ ground (arith, e, same, is, s.proved k old there)
      ];
}

pub put-MovesOn :
    (id : ℕ) (row new : Job) (t : Table Job)
    → find id t ≡ some row
    → rank row.status < rank new.status
    → MovesOn t (put id new t)
put-MovesOn id row new t here less k j found = elim (Bool-cases (k == id)) [
  | inl same ↦ (
    new,
    ground (arith, same, find-put k id new t),
    inr (ground (arith, found, here, less, same)),
  )
  | inr other ↦ (j, ground (arith, other, found, find-put k id new t), inl refl)
]

pub put-IsSound :
    (id c : ℕ) (row : Job) (t : Table Job) (proofs : Table Proof)
    → IsSound t proofs
    → IsSound
        (put id (record row { courier_provider_id = some c; status = Status.assigned }) t)
        proofs
put-IsSound id c row t proofs s =
    let new : Job = record row { courier_provider_id = some c; status = Status.assigned } in
    record {
      unassigned = λ k j found is. elim (Bool-cases (k == id)) [
        | inl e ↦ absurd (ground (arith, e, found, is, find-put k id new t))
        | inr e ↦ s.unassigned k j (ground (arith, e, found, find-put k id new t)) is
      ];
      proved = λ k j found is. elim (Bool-cases (k == id)) [
        | inl e ↦ absurd (ground (arith, e, found, is, find-put k id new t))
        | inr e ↦ s.proved k j (ground (arith, e, found, find-put k id new t)) is
      ];
    }

pub put_proof-IsSound :
    (id : ℕ) (p : Proof) (t : Table Job) (proofs : Table Proof)
    → IsSound t proofs
    → IsSound t (put id p proofs)
put_proof-IsSound id p t proofs s = record {
  unassigned = s.unassigned;
  proved = λ k j found is. ground (arith, find-put k id p proofs, s.proved k j found is);
}

pub MovesOn-refl : (t : Table Job) → MovesOn t t
MovesOn-refl t k j found = (j, found, inl refl)

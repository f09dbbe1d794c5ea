-- ===== src/Base/Rows.antt =====
-- The rows that stand in a table, and the ones that a query gives.
use Prim.{⊥}
use Prim.Native.Nat.{ℕ}
use mathlib.Core.Path.{◌≡◌, sym, subst}
use mathlib.Core.Logic.{◌⊎◌, inl, inr}
use mathlib.Core.Bool.{Bool, true}
use mathlib.Core.Option.{some, some-injective}
use mathlib.Core.List.{[], ◌∷◌}
use native.Mathlib.Omega.{arith}
use thuso_wechat_ls.Base.Tests.{Bool-cases}
use thuso_wechat_ls.Base.Tables.{Table, find_where, select_where}

module _ {V : Type 0} where
  -- The row stands in the table.
  abbrev pub Stands : ℕ → V → Table V → Type 0
  Stands k v [] = ⊥
  Stands k v ((j, w) ∷ t) = (Path (ℕ × V) (k, v) (j, w)) ⊎ Stands k v t

  pub find_where-Stands :
      (p : ℕ → V → Bool) (t : Table V) {k : ℕ} {v : V}
      → find_where p t ≡ some (k, v)
      → Stands k v t × (p k v ≡ true)
  unfolding find_where
  find_where-Stands p [] h = ground arith
  find_where-Stands p ((j, w) ∷ t) {k} {v} h = elim (Bool-cases (p j w)) [
    | inl e ↦
        let same = some-injective (j, w) (k, v) (rw e at h) in
        (inl (sym same), subst (λ r. p r.0 r.1 ≡ true) same e)
    | inr e ↦ let r = find_where-Stands p t (rw e at h) in (inr r.0, r.1)
  ]

  pub select_where-Stands :
      (p : ℕ → V → Bool) (t : Table V) {k : ℕ} {v : V}
      → Stands k v (select_where p t)
      → Stands k v t × (p k v ≡ true)
  unfolding select_where
  select_where-Stands p [] h = elim h [ ]
  select_where-Stands p ((j, w) ∷ t) h = elim (Bool-cases (p j w)) [
    | inl e ↦ elim (rw e at h) [
      | inl same ↦ (inl same, subst (λ r. p r.0 r.1 ≡ true) (sym same) e)
      | inr later ↦ let r = select_where-Stands p t later in (inr r.0, r.1)
    ]
    | inr e ↦ let r = select_where-Stands p t (rw e at h) in (inr r.0, r.1)
  ]

  pub Stands-select_where :
      (p : ℕ → V → Bool) (t : Table V) {k : ℕ} {v : V}
      → Stands k v t
      → p k v ≡ true
      → Stands k v (select_where p t)
  unfolding select_where
  Stands-select_where p [] h e = elim h [ ]
  Stands-select_where p ((j, w) ∷ t) (inl same) e =
      rw (subst (λ r. p r.0 r.1 ≡ true) same e) (inl same)
  Stands-select_where p ((j, w) ∷ t) (inr later) e = elim (Bool-cases (p j w)) [
    | inl f ↦ rw f (inr (Stands-select_where p t later e))
    | inr f ↦ rw f (Stands-select_where p t later e)
  ]

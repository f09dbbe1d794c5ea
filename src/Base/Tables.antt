-- ===== src/Base/Tables.antt =====
-- Database tables. A row stands under its primary key; `select ... where id=:id` is `find`, an
-- `update ... where` on a key is `put` after a test, and one on a predicate is `update_where`.
use Prim.Native.Nat.{ℕ, ◌+◌}
use mathlib.Core.Path.{◌≡◌, refl}
use mathlib.Core.Logic.{◌≢◌}
use mathlib.Core.Bool.{Bool, true}
use mathlib.Core.Option.{Option, none, some}
use mathlib.Core.List.{List, [], ◌∷◌}
use native.Mathlib.Omega.{arith}
use thuso_wechat_ls.Base.Tests.{◌==◌, if◌then◌else◌}

abbrev pub Table {ℓ} : Type ℓ → Type ℓ
Table V = List (ℕ × V)

module _ {ℓ} {V : Type ℓ} where
  -- The row of a primary key.
  unfoldable pub find : ℕ → Table V → Option V
  find k [] = none
  find k ((j, v) ∷ t) = if k == j then some v else find k t

  -- The row is replaced where it stands, or inserted at the end.
  unfoldable pub put : ℕ → V → Table V → Table V
  put k v [] = (k, v) ∷ []
  put k v ((j, w) ∷ t) = if k == j then (k, v) ∷ t else (j, w) ∷ put k v t

  -- `update ... set ... where p`, on every row; the key is handed to the test and the change.
  unfoldable pub update_where : (ℕ → V → Bool) → (V → V) → Table V → Table V
  update_where p f [] = []
  update_where p f ((j, v) ∷ t) = (j, if p j v then f v else v) ∷ update_where p f t

  -- `select ... where p limit 1`
  unfoldable pub find_where : (ℕ → V → Bool) → Table V → Option (ℕ × V)
  find_where p [] = none
  find_where p ((j, v) ∷ t) = if p j v then some (j, v) else find_where p t

  -- `select ... where p`
  unfoldable pub select_where : (ℕ → V → Bool) → Table V → Table V
  select_where p [] = []
  select_where p ((j, v) ∷ t) = let rest = select_where p t in if p j v then (j, v) ∷ rest else rest

  pub find-put :
      (j k : ℕ) (v : V) (t : Table V) → find j (put k v t) ≡ (if j == k then some v else find j t)
  unfolding find put
  find-put j k v [] = refl
  find-put j k v ((i, w) ∷ t) = ground (arith, find-put j k v t)

  pub find-put_self : (k : ℕ) (v : V) (t : Table V) → find k (put k v t) ≡ some v
  find-put_self k v t = ground (arith, find-put k k v t)

  pub find-put_ne : (j k : ℕ) (v : V) (t : Table V) → j ≢ k → find j (put k v t) ≡ find j t
  find-put_ne j k v t h = ground (arith, find-put j k v t)

  -- What a change by predicate does to the row of a key.
  abbrev pub updated : (ℕ → V → Bool) → (V → V) → ℕ → Option V → Option V
  updated p f k none = none
  updated p f k (some v) = some (if p k v then f v else v)

  pub find-update_where :
      (p : ℕ → V → Bool) (f : V → V) (k : ℕ) (t : Table V)
      → find k (update_where p f t) ≡ updated p f k (find k t)
  unfolding find update_where
  find-update_where p f k [] = refl
  find-update_where p f k ((j, v) ∷ t) = ground (arith, find-update_where p f k t)

  -- A sum over the rows, and what replacing one row does to it.
  abbrev pub sum_by : (V → ℕ) → Table V → ℕ
  sum_by w [] = 0
  sum_by w ((j, v) ∷ t) = w v + sum_by w t

  pub sum_by-put :
      (w : V → ℕ) (k : ℕ) (v old : V) (t : Table V)
      → find k t ≡ some old
      → sum_by w (put k v t) + w old ≡ sum_by w t + w v
  unfolding find put
  sum_by-put w k v old [] h = ground arith
  sum_by-put w k v old ((j, x) ∷ t) h = ground (arith, sum_by-put w k v old t)

  pub sum_by-put_new :
      (w : V → ℕ) (k : ℕ) (v : V) (t : Table V)
      → find k t ≡ none
      → sum_by w (put k v t) ≡ sum_by w t + w v
  unfolding find put
  sum_by-put_new w k v [] h = ground arith
  sum_by-put_new w k v ((j, x) ∷ t) h = ground (arith, sum_by-put_new w k v t)

  -- `update ... set ... where id=:id and p returning *`
  unfoldable pub update_row : ℕ → (V → Bool) → (V → V) → Table V → Option (V × Table V)
  update_row k p f t = elim (find k t) [
    | none ↦ none
    | some v ↦ if p v then some (f v, put k (f v) t) else none
  ]

  pub find_where-put :
      (p : ℕ → V → Bool) (k : ℕ) (v : V) (t : Table V)
      → find_where p t ≡ none
      → p k v ≡ true
      → find_where p (put k v t) ≡ some (k, v)
  unfolding find_where put
  find_where-put p k v [] h e = ground arith
  find_where-put p k v ((j, w) ∷ t) h e = ground (arith, find_where-put p k v t)

-- ===== src/Base/Queue.antt =====
-- Work queues in a table: `with picked as (select ... where p order by created_at for update skip
-- locked limit n) update ... set ... from picked returning *`. Rows are inserted in the order of
-- their creation, which is the order of the table.
use thuso_wechat_ls.Base.Tests.{◌==◌, if◌then◌else◌, length, is_some, Bool-cases, ==_iff}
use thuso_wechat_ls.Base.Tables.{Table, find, put, update_where, find_where}
use Prim.Native.Nat.{ℕ, zero, suc, ◌≤◌, ◌+◌}
use mathlib.Core.Path.{◌≡◌, refl, subst, sym}
use mathlib.Core.Bool.{Bool, true, false}
use mathlib.Core.Option.{some, some-injective}
use mathlib.Core.List.{[], ◌∷◌}
use mathlib.Core.Logic.{inl, inr}
use native.Mathlib.Omega.{arith}

module _ {ℓ} {V : Type ℓ} where
  -- The rows that are picked, after their change, and the table with the change.
  unfoldable pub claim : (V → Bool) → (V → V) → ℕ → Table V → Table V × Table V
  claim p f zero t = ([], t)
  claim p f (suc n) [] = ([], [])
  claim p f (suc n) ((k, v) ∷ t) =
      let (picked, rest) = claim p f n t in
      let (picked', rest') = claim p f (suc n) t in
      if p v then ((k, f v) ∷ picked, (k, f v) ∷ rest) else (picked', (k, v) ∷ rest')

  -- Every row holds.
  abbrev pub AllRows {κ} : (V → Type κ) → Table V → Type κ
  AllRows P [] = Unit
  AllRows P ((k, v) ∷ t) = P v × AllRows P t

  -- The rows that pass a test, counted.
  abbrev pub count_rows : (V → Bool) → Table V → ℕ
  count_rows p [] = 0
  count_rows p ((k, v) ∷ t) = if p v then suc (count_rows p t) else count_rows p t

  pub claim-length : (p : V → Bool) (f : V → V) (n : ℕ) (t : Table V) → length (claim p f n t).0 ≤ n
  unfolding claim
  claim-length p f zero t = omega arith
  claim-length p f (suc n) [] = omega arith
  claim-length p f (suc n) ((k, v) ∷ t) =
      ground (arith, claim-length p f n t, claim-length p f (suc n) t)

  -- Where the change ends the test, claiming takes exactly the claimed rows out of the waiting ones.
  pub claim-count :
      (p : V → Bool) (f : V → V) (n : ℕ) (t : Table V)
      → ((v : V) → p v ≡ true → p (f v) ≡ false)
      → count_rows p (claim p f n t).1 + length (claim p f n t).0 ≡ count_rows p t
  unfolding claim
  claim-count p f zero t ends = omega arith
  claim-count p f (suc n) [] ends = omega arith
  claim-count p f (suc n) ((k, v) ∷ t) ends =
      ground (arith, ends v, claim-count p f n t ends, claim-count p f (suc n) t ends)

  pub claim-AllRows {κ} :
      (P : V → Type κ) (p : V → Bool) (f : V → V) (n : ℕ) (t : Table V)
      → ((v : V) → P v → p v ≡ true → P (f v))
      → AllRows P t
      → AllRows P (claim p f n t).1
  unfolding claim
  claim-AllRows P p f zero t keep h = h
  claim-AllRows P p f (suc n) [] keep h = h
  claim-AllRows P p f (suc n) ((k, v) ∷ t) keep h = elim (Bool-cases (p v)) [
    | inl e ↦ rw e (keep v h.0 e, claim-AllRows P p f n t keep h.1)
    | inr e ↦ rw e (h.0, claim-AllRows P p f (suc n) t keep h.1)
  ]

  AllRows-map {κ} :
      (P Q : V → Type κ) (t : Table V) → ((v : V) → P v → Q v) → AllRows P t → AllRows Q t
  AllRows-map P Q [] f h = tt
  AllRows-map P Q ((k, v) ∷ t) f h = (f v h.0, AllRows-map P Q t f h.1)

  -- What the table holds after, of the rows that are picked and of the others.
  pub claim-AllRows_after {κ} :
      (P Q : V → Type κ) (p : V → Bool) (f : V → V) (n : ℕ) (t : Table V)
      → ((v : V) → P v → Q (f v))
      → ((v : V) → P v → Q v)
      → AllRows P t
      → AllRows Q (claim p f n t).1
  unfolding claim
  claim-AllRows_after P Q p f zero [] picked other h = tt
  claim-AllRows_after P Q p f zero ((k, v) ∷ t) picked other h =
      (other v h.0, AllRows-map P Q t other h.1)
  claim-AllRows_after P Q p f (suc n) [] picked other h = tt
  claim-AllRows_after P Q p f (suc n) ((k, v) ∷ t) picked other h = elim (Bool-cases (p v)) [
    | inl e ↦ rw e (picked v h.0, claim-AllRows_after P Q p f n t picked other h.1)
    | inr e ↦ rw e (other v h.0, claim-AllRows_after P Q p f (suc n) t picked other h.1)
  ]

  -- What is picked held before, passed the test, and has been changed.
  pub claim-picked {κ} :
      (P Q : V → Type κ) (p : V → Bool) (f : V → V) (n : ℕ) (t : Table V)
      → ((v : V) → P v → p v ≡ true → Q (f v))
      → AllRows P t
      → AllRows Q (claim p f n t).0
  unfolding claim
  claim-picked P Q p f zero t take h = tt
  claim-picked P Q p f (suc n) [] take h = tt
  claim-picked P Q p f (suc n) ((k, v) ∷ t) take h = elim (Bool-cases (p v)) [
    | inl e ↦ rw e (take v h.0 e, claim-picked P Q p f n t take h.1)
    | inr e ↦ rw e (claim-picked P Q p f (suc n) t take h.1)
  ]

  pub AllRows-put {κ} :
      (P : V → Type κ) (k : ℕ) (v : V) (t : Table V) → P v → AllRows P t → AllRows P (put k v t)
  unfolding put
  AllRows-put P k v [] h a = (h, tt)
  AllRows-put P k v ((j, w) ∷ t) h a = elim (Bool-cases (k == j)) [
    | inl e ↦ rw e (h, a.1)
    | inr e ↦ rw e (a.0, AllRows-put P k v t h a.1)
  ]

  pub AllRows-update_where {κ} :
      (P : V → Type κ) (p : ℕ → V → Bool) (f : V → V) (t : Table V)
      → ((k : ℕ) (v : V) → P v → p k v ≡ true → P (f v))
      → AllRows P t
      → AllRows P (update_where p f t)
  unfolding update_where
  AllRows-update_where P p f [] keep h = tt
  AllRows-update_where P p f ((k, v) ∷ t) keep h = elim (Bool-cases (p k v)) [
    | inl e ↦ rw e (keep k v h.0 e, AllRows-update_where P p f t keep h.1)
    | inr e ↦ rw e (h.0, AllRows-update_where P p f t keep h.1)
  ]

  pub AllRows-find {κ} :
      (P : V → Type κ) (k : ℕ) (t : Table V) {v : V} → AllRows P t → find k t ≡ some v → P v
  unfolding find
  AllRows-find P k [] h e = absurd (cc e)
  AllRows-find P k ((j, w) ∷ t) {v} h e = elim (Bool-cases (k == j)) [
    | inl same ↦ subst P (some-injective w v (rw same at e)) h.0
    | inr other ↦ AllRows-find P k t h.1 (rw other at e)
  ]

  abbrev pub has_key : ℕ → Table V → Bool
  has_key k [] = false
  has_key k ((j, v) ∷ t) = if k == j then true else has_key k t

  -- A row that is not picked stays as it was.
  pub find-claim :
      (p : V → Bool) (f : V → V) (n k : ℕ) (t : Table V)
      → has_key k (claim p f n t).0 ≡ false
      → find k (claim p f n t).1 ≡ find k t
  unfolding claim find
  find-claim p f zero k t h = refl
  find-claim p f (suc n) k [] h = refl
  find-claim p f (suc n) k ((j, v) ∷ t) h =
      ground (arith, find-claim p f n k t, find-claim p f (suc n) k t)

  -- The row of a key, if there is one, does not pass the test.
  abbrev pub Settled : (V → Bool) → ℕ → Table V → Type ℓ
  Settled p k t = (v : V) → find k t ≡ some v → p v ≡ false

  pub update_where-Settled :
      (p : V → Bool) (q : ℕ → V → Bool) (f : V → V) (k : ℕ) (t : Table V)
      → ((v : V) → p v ≡ false → p (f v) ≡ false)
      → Settled p k t
      → Settled p k (update_where q f t)
  unfolding update_where find
  update_where-Settled p q f k [] keep h v found = absurd (cc found)
  update_where-Settled p q f k ((j, w) ∷ t) keep h v found = elim (Bool-cases (k == j)) [
    | inl same ↦ ground (arith, h w, keep w, same)
    | inr other ↦
        update_where-Settled p q f k t keep (λ u e. h u (rw (other, find) e)) v
          (rw (other, find) at found)
  ]

  -- A change that ends the test settles the rows that it changes.
  pub update_where-Settled_self :
      (p : V → Bool) (q : ℕ → V → Bool) (f : V → V) (k : ℕ) (t : Table V)
      → ((v : V) → p (f v) ≡ false)
      → ((v : V) → q k v ≡ true)
      → Settled p k (update_where q f t)
  unfolding update_where find
  update_where-Settled_self p q f k [] ends all v found = absurd (cc found)
  update_where-Settled_self p q f k ((j, w) ∷ t) ends all v found = elim (Bool-cases (k == j)) [
    | inl same ↦ ground (arith, ends w, all w, same)
    | inr other ↦ update_where-Settled_self p q f k t ends all v (rw (other, find) at found)
  ]

  -- A worker's loop over the rows that it claimed.
  unfoldable pub for_each {κ} : {S : Type κ} → (ℕ → V → S → S) → Table V → S → S
  for_each step [] s = s
  for_each step ((k, v) ∷ rows) s = for_each step rows (step k v s)

  -- A loop whose body settles its own row and unsettles none settles every row that it visits.
  pub for_each-Settled {κ} :
      {S : Type κ} (view : S → Table V) (p : V → Bool) (step : ℕ → V → S → S)
      → ((k j : ℕ) (v : V) (s : S) → Settled p k (view s) → Settled p k (view (step j v s)))
      → ((j : ℕ) (v : V) (s : S) → Settled p j (view (step j v s)))
      → (k : ℕ) (rows : Table V) (s : S) → (has_key k rows ≡ false → Settled p k (view s))
      → Settled p k (view (for_each step rows s))
  unfolding for_each
  for_each-Settled view p step keeps settles k [] s h = h refl
  for_each-Settled view p step keeps settles k ((j, v) ∷ rows) s h =
      for_each-Settled view p step keeps settles k rows (step j v s) (λ later.
        elim (Bool-cases (k == j)) [
          | inl same ↦
              subst (λ i. Settled p i (view (step j v s))) (sym ((==_iff k j).0 same))
                (settles j v s)
          | inr other ↦ keeps k j v s (h (rw other later))
        ])

  -- Claiming, then the loop: what was settled before is settled after, and so is what was claimed.
  pub claim-for_each-Settled {κ} :
      {S : Type κ} (view : S → Table V) (p q : V → Bool) (f : V → V) (step : ℕ → V → S → S)
      → ((k j : ℕ) (v : V) (s : S) → Settled p k (view s) → Settled p k (view (step j v s)))
      → ((j : ℕ) (v : V) (s : S) → Settled p j (view (step j v s)))
      → (n k : ℕ) (t : Table V) (s : S) → view s ≡ (claim q f n t).1
      → Settled p k t
      → Settled p k (view (for_each step (claim q f n t).0 s))
  claim-for_each-Settled view p q f step keeps settles n k t s same h =
      for_each-Settled view p step keeps settles k (claim q f n t).0 s
        (λ free. rw (same, find-claim q f n k t free) h)

  -- What every step of a loop keeps, the loop keeps.
  pub for_each-keeps {κ μ} :
      {S : Type κ} (I : S → Type μ) (step : ℕ → V → S → S)
      → ((j : ℕ) (v : V) (s : S) → I s → I (step j v s))
      → (rows : Table V) (s : S) → I s
      → I (for_each step rows s)
  unfolding for_each
  for_each-keeps I step keep [] s h = h
  for_each-keeps I step keep ((j, v) ∷ rows) s h =
      for_each-keeps I step keep rows (step j v s) (keep j v s h)

  -- Some row passes the test.
  abbrev pub has_row : (ℕ → V → Bool) → Table V → Bool
  has_row p t = is_some (find_where p t)

  -- A change that leaves the test alone leaves what passes it.
  pub has_row-update_where :
      (p q : ℕ → V → Bool) (f : V → V) (t : Table V)
      → ((k : ℕ) (v : V) → p k (f v) ≡ p k v)
      → has_row p (update_where q f t) ≡ has_row p t
  unfolding update_where find_where
  has_row-update_where p q f [] same = refl
  has_row-update_where p q f ((k, v) ∷ t) same =
      ground (arith, same k v, has_row-update_where p q f t same)

  pub has_row-claim :
      (p : ℕ → V → Bool) (q : V → Bool) (f : V → V) (n : ℕ) (t : Table V)
      → ((k : ℕ) (v : V) → p k (f v) ≡ p k v)
      → has_row p (claim q f n t).1 ≡ has_row p t
  unfolding claim find_where
  has_row-claim p q f zero t same = refl
  has_row-claim p q f (suc n) [] same = refl
  has_row-claim p q f (suc n) ((k, v) ∷ t) same =
      ground (arith, same k v, has_row-claim p q f n t same, has_row-claim p q f (suc n) t same)

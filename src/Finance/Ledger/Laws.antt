-- ===== src/Finance/Ledger/Laws.antt =====
-- Postings to the wallet ledger: a repeated posting changes nothing, and a new one moves the
-- balance of its own account alone, by its amount.
use text.Mathlib.TextEquality.{eq_iff}
use thuso_wechat_ls.Base.{
  ℕ, ◌≡◌, refl, true, List, [], ◌∷◌, ◌++◌, String, arith, ◌==◌, if◌then◌else◌, suc, zero,
  Bool-cases, inl, inr,
}
use thuso_wechat_ls.Base.Int.{ℤ, pos, negsuc, int_laws}
use thuso_wechat_ls.Finance.Books.{Books, Entry, Direction, credit, debit}
use thuso_wechat_ls.Finance.Ledger.{
  same_key, contains_key, insert_entry, post_entry, signed, sum_entries,
}

same_key_refl : (e : Entry) → same_key e e ≡ true
same_key_refl e = ground (arith, eq_iff e.reference e.reference)

contains_key-append : (e : Entry) (l : List Entry) → contains_key e (l ++ (e ∷ [])) ≡ true
unfolding contains_key
contains_key-append e [] = rw (same_key_refl e)
contains_key-append e (x ∷ l) = ground (arith, contains_key-append e l)

contains_key-insert : (e : Entry) (l : List Entry) → contains_key e (insert_entry e l) ≡ true
contains_key-insert e l = ground (arith, contains_key-append e l)

-- Posting twice leaves the books that posting once leaves.
post_entry_idem :
    (a : ℕ) (r : String) (d : Direction) (x : ℤ) (c : String) (s : Books)
    → post_entry a r d x c (post_entry a r d x c s).1 ≡ post_entry a r d x c s
unfolding post_entry
post_entry_idem a r d (pos (suc n)) c s = ground (
  arith,
  contains_key-insert
      (record { account_id = a; reference = r; direction = d; amount = suc n; currency = c })
      s.entries,
)
post_entry_idem a r d (pos zero) c s = refl
post_entry_idem a r d (negsuc n) c s = refl

signed_comm :
    (d f : Direction) (m n : ℕ) (t : ℤ) → signed d m (signed f n t) ≡ signed f n (signed d m t)
signed_comm credit credit m n t = omega int_laws
signed_comm credit debit m n t = omega int_laws
signed_comm debit credit m n t = omega int_laws
signed_comm debit debit m n t = omega int_laws

pub sum_entries-append :
    (a : ℕ) (e : Entry) (l : List Entry)
    → sum_entries a (l ++ (e ∷ [])) ≡ (
        if e.account_id == a
        then signed e.direction e.amount (sum_entries a l)
        else sum_entries a l)
unfolding sum_entries
sum_entries-append a e [] = refl
sum_entries-append a e (x ∷ l) = ground (
  arith,
  sum_entries-append a e l,
  signed_comm x.direction e.direction x.amount e.amount (sum_entries a l),
)

-- A posting under a key that is new moves the balance of its account by its amount, up for a
-- credit and down for a debit, and leaves every other balance; under a key that is taken it
-- changes no balance.
pub balance-post_entry :
    (a b : ℕ) (r : String) (d : Direction) (n : ℕ) (c : String) (s : Books)
    → let e : Entry = record {
      account_id = a;
      reference = r;
      direction = d;
      amount = suc n;
      currency = c;
    } in
      sum_entries b (post_entry a r d (pos (suc n)) c s).1.entries ≡ (
        if contains_key e s.entries
        then sum_entries b s.entries
        else if a == b
        then signed d (suc n) (sum_entries b s.entries)
        else sum_entries b s.entries)
unfolding post_entry
balance-post_entry a b r d n c s =
    let e : Entry = record {
      account_id = a;
      reference = r;
      direction = d;
      amount = suc n;
      currency = c;
    } in
    elim (Bool-cases (contains_key e s.entries)) [
      | inl old ↦ rw old
      | inr new ↦ rw new (sum_entries-append b e s.entries)
    ]

-- ===== src/Finance/Reconciliation/Laws.antt =====
-- What a match means.
use text.Mathlib.TextEquality.{eq_iff}
use mathlib.Core.Path.{subst}
use mathlib.Core.Option.{some-injective}
use thuso_wechat_ls.Base.{
  ℕ, ◌≡◌, refl, ap, sym, ◌∙◌, true, Option, none, some, String, arith, Bool-cases, Option-cases,
  inl, inr, find_where,
}
use thuso_wechat_ls.Base.Int.{ℤ, pos}
use thuso_wechat_ls.Money.{Decimal, money}
use thuso_wechat_ls.Money.Rounding.{money-cents}
use thuso_wechat_ls.Finance.Books.{Payment}
use thuso_wechat_ls.Finance.Reconciliation.{
  Recon, Item, MatchStatus, is_item, is_referred, is_collected, agrees, agreeing, upsert_item,
  write_item, match_item,
}

agreeing-agrees :
    (x : ℤ) (c : String) (o : Option (ℕ × Payment)) {r : ℕ × Payment}
    → agreeing x c o ≡ some r
    → (o ≡ some r) × (agrees x c r.1 ≡ true)
agreeing-agrees x c none h = absurd (cc h)
agreeing-agrees x c (some (id, p)) {r} h = elim (Bool-cases (agrees x c p)) [
  | inl e ↦
      let same = some-injective (id, p) r (rw e at h) in
      (ap some same, subst (λ q. agrees x c q.1 ≡ true) same e)
  | inr e ↦ absurd (cc (rw e at h))
]

agrees_parts :
    (x : ℤ) (c : String) (p : Payment)
    → agrees x c p ≡ true
    → (pos p.amount ≡ x) × (p.currency ≡ c) × (is_collected p.status ≡ true)
agrees_parts x c p h = ground (arith, money-cents (pos p.amount), eq_iff p.currency c)

write_item_matched :
    (i b : ℕ) (ref : String) (x : ℤ) (c st : String) (o m : Option (ℕ × Payment)) (s : Recon)
    → (write_item i b ref x c st o m s).0.match_status ≡ MatchStatus.matched
    → (r : ℕ × Payment) × (m ≡ some r) × ((write_item i b ref x c st o m s).0.payment_id ≡ some r.0)
unfolding write_item upsert_item
write_item_matched i b ref x c st o (some (id, p)) s h =
    elim (Option-cases (find_where (is_item b ref) s.items)) [
      | inl new ↦ ((id, p), refl, rw (new, write_item, upsert_item) refl)
      | inr (old, there) ↦ ((id, p), refl, rw (there, write_item, upsert_item) refl)
    ]
write_item_matched i b ref x c st o none s h =
    elim (Option-cases (find_where (is_item b ref) s.items)) [
      | inl new ↦ absurd (cc (rw (new, write_item, upsert_item) at h))
      | inr (old, there) ↦ absurd (cc (rw (there, write_item, upsert_item) at h))
    ]

-- Which amount and currency the row of an item has: on a conflict those that it had.
keeps_amount :
    (i b : ℕ) (ref : String) (x : ℤ) (c st : String) (o m : Option (ℕ × Payment)) (s : Recon)
    → let item = (write_item i b ref x c st o m s).0 in
      (find_where (is_item b ref) s.items ≡ none → (item.amount ≡ x) × (item.currency ≡ c))
      × ((id : ℕ) (old : Item)
          → find_where (is_item b ref) s.items ≡ some (id, old)
          → (item.amount ≡ old.amount) × (item.currency ≡ old.currency))
unfolding write_item upsert_item
keeps_amount i b ref x c st o (some (id, p)) s = (
  λ new. rw (new, write_item, upsert_item) (refl, refl),
  λ k old there. rw (there, write_item, upsert_item) (refl, refl),
)
keeps_amount i b ref x c st o none s = (
  λ new. rw (new, write_item, upsert_item) (refl, refl),
  λ k old there. rw (there, write_item, upsert_item) (refl, refl),
)

-- What a matched item shows: a payment of the books under its reference, collected, with the amount
-- and the currency of the call; the row itself has them only where it is new, and keeps its own where
-- the batch had the reference before.
pub record IsMatch (b : ℕ) (ref : String) (x : ℤ) (c : String) (s : Recon) (item : Item)
    : Type 0 where
  pub id : ℕ
  pub payment : Payment
  pub found : find_where (is_referred ref) s.books.payments ≡ some (id, payment)
  pub linked : item.payment_id ≡ some id
  pub amount : pos payment.amount ≡ x
  pub currency : payment.currency ≡ c
  pub collected : is_collected payment.status ≡ true
  pub new_row :
      find_where (is_item b ref) s.items ≡ none
      → (item.amount ≡ pos payment.amount) × (item.currency ≡ payment.currency)
  pub old_row :
      (k : ℕ) (old : Item)
      → find_where (is_item b ref) s.items ≡ some (k, old)
      → (item.amount ≡ old.amount) × (item.currency ≡ old.currency)

-- An item that comes back as matched is linked to a payment of the books under its reference, which
-- has been collected and has the amount and the currency of the call. The row of the item has that
-- amount and currency too where it is new; where the batch had the reference before, it keeps the
-- amount and the currency that it had.
pub match_item_sound :
    (i b : ℕ) (ref : String) (x : Decimal) (c st : String) (s : Recon)
    → (match_item i b ref x c st s).0.match_status ≡ MatchStatus.matched
    → IsMatch b ref (money x) c s (match_item i b ref x c st s).0
unfolding match_item
match_item_sound i b ref x c st s h =
    let o = find_where (is_referred ref) s.books.payments in
    let m = agreeing (money x) c o in
    let (r, same, id) = write_item_matched i b ref (money x) c st o m s h in
    let (found, agree) = agreeing-agrees (money x) c o {r = r} same in
    let parts = agrees_parts (money x) c r.1 agree in
    let kept = keeps_amount i b ref (money x) c st o m s in
    record {
      id = r.0;
      payment = r.1;
      found = found;
      linked = id;
      amount = parts.0;
      currency = parts.1;
      collected = parts.2;
      new_row = λ new.
          let (amount, currency) = kept.0 new in (amount ∙ sym parts.0, currency ∙ sym parts.1);
      old_row = kept.1;
    }

-- ===== src/Finance/Payouts/Laws.antt =====
-- What a payout request tests, and what it does not set aside.
use text.Mathlib.TextEquality.{eq_iff}
use text.Mathlib.Text.{◌==◌ as str_eq}
use thuso_wechat_ls.Base.{
  ℕ, suc, zero, Bool, ◌&&◌, ◌<◌, ◌≡◌, arith, String, ok, ap, sym, ◌∙◌, Table, put, some,
  Option-cases, inl, inr, find_where, find_where-put, is_ok, true,
}
use thuso_wechat_ls.Base.Int.{ℤ, pos, negsuc, ◌≤ℤ◌}
use thuso_wechat_ls.Money.{Decimal, money}
use thuso_wechat_ls.Finance.Books.{Books, Payout, provider, Account}
use thuso_wechat_ls.Finance.Ledger.{
  get_or_create_provider_account, balance, sum_entries, same_owner,
}
use thuso_wechat_ls.Finance.Payouts.{
  request_payout, provider_available_balance, pay_from, payout_amount,
}

abbrev is_account : ℕ → String → ℕ → Account → Bool
is_account p c _ x = same_owner x.owner (provider p) && str_eq x.currency c

account_there :
    (p a id : ℕ) (c : String) (s : Books) (x : Account)
    → find_where (is_account p c) s.accounts ≡ some (id, x)
    → get_or_create_provider_account p c a s ≡ (ok id, s)
unfolding get_or_create_provider_account
account_there p a id c s x there = ground (arith, there)

-- Whether it stood there or is made, the account is found afterwards; only the accounts change.
account_found :
    (p a : ℕ) (c : String) (s : Books)
    → (id : ℕ) × (x : Account) × (t : Table Account) × (find_where (is_account p c) t
        ≡ some (id, x))
      × (get_or_create_provider_account p c a s ≡ (ok id, record s { accounts = t }))
unfolding get_or_create_provider_account
account_found p a c s =
    let new : Account = record { owner = provider p; currency = c } in
    elim (Option-cases (find_where (is_account p c) s.accounts)) [
      | inl free ↦ (
        a,
        new,
        put a new s.accounts,
        find_where-put (is_account p c) a new s.accounts free (ground (arith, eq_iff c c)),
        ground (arith, free),
      )
      | inr (x, there) ↦ (x.0, x.1, s.accounts, ground (arith, there), ground (arith, there))
    ]

-- Asking again for the account of a provider in a currency, with whatever identifier for a new row,
-- returns the same account and changes nothing.
get_or_create_provider_account_idem :
    (p a b : ℕ) (c : String) (s : Books) {id : ℕ}
    → (get_or_create_provider_account p c a s).0 ≡ ok id
    → get_or_create_provider_account p c b (get_or_create_provider_account p c a s).1
      ≡ (ok id, (get_or_create_provider_account p c a s).1)
get_or_create_provider_account_idem p a b c s {id} h =
    let (i, x, t, there, e) = account_found p a c s in
    let same : ok i ≡ ok id = ap (λ r. r.0) (sym e) ∙ h in
    rw e (
      account_there p b i c (record s { accounts = t }) x there
      ∙ ap (λ r. (r, record s { accounts = t })) same)

payout_amount_known :
    (i a p tok n id : ℕ) (c : String) (s : Books) (t : Table Account)
    → get_or_create_provider_account p c a s ≡ (ok id, record s { accounts = t })
    → payout_amount i a p tok (pos (suc n)) c s
      ≡ pay_from i p tok (suc n) c (sum_entries id s.entries) (record s { accounts = t })
unfolding payout_amount provider_available_balance balance
payout_amount_known i a p tok n id c s t e = rw e

pay_from_cases :
    (i p tok n : ℕ) (c : String) (b : ℤ) (s : Books) {q : Payout}
    → (pay_from i p tok n c b s).0 ≡ ok q
    → (q.amount ≡ n)
      × (pos n ≤ℤ b)
      × ((pay_from i p tok n c b s).1 ≡ record s { payouts = put i q s.payouts })
unfolding pay_from
pay_from_cases i p tok n c b s h = ground arith

pay_from_covered :
    (i p tok n : ℕ) (c : String) (b : ℤ) (s : Books)
    → pos n ≤ℤ b
    → is_ok (pay_from i p tok n c b s).0 ≡ true
unfolding pay_from
pay_from_covered i p tok n c b s h = ground arith

payout_amount_again :
    (i j a b p tok tok' : ℕ) (x : ℤ) (c : String) (s : Books) {q : Payout}
    → (payout_amount i a p tok x c s).0 ≡ ok q
    → (0 < q.amount)
      × (pos q.amount ≡ x)
      × (is_ok (payout_amount j b p tok' x c (payout_amount i a p tok x c s).1).0 ≡ true)
payout_amount_again i j a b p tok tok' (negsuc n) c s h =
    absurd (unfold payout_amount in ground arith)
payout_amount_again i j a b p tok tok' (pos zero) c s h =
    absurd (unfold payout_amount in ground arith)
payout_amount_again i j a b p tok tok' (pos (suc n)) c s {q} h =
    let (id, x, t, there, e) = account_found p a c s in
    let known = payout_amount_known i a p tok n id c s t e in
    let done =
      pay_from_cases i p tok (suc n) c (sum_entries id s.entries) (record s { accounts = t })
        (rw known at h) in
    let s' : Books = record s { accounts = t; payouts = put i q s.payouts } in
    (
      omega (arith, done.0),
      ap pos done.0,
      rw
          (
            known,
            done.2,
            payout_amount_known j b p tok' n id c s' t (account_there p b id c s' x there),
          )
          (pay_from_covered j p tok' (suc n) c (sum_entries id s.entries) s' done.1),
    )

-- A payout request sets nothing aside: after one has been accepted, for a positive amount, another
-- for the same amount and provider is accepted too, however little the balance holds beyond it.
request_payout_again :
    (i j a b p tok tok' : ℕ) (x : Decimal) (c : String) (s : Books) {q : Payout}
    → (request_payout i a p tok x c s).0 ≡ ok q
    → (0 < q.amount)
      × (pos q.amount ≡ money x)
      × (is_ok (request_payout j b p tok' x c (request_payout i a p tok x c s).1).0 ≡ true)
unfolding request_payout
request_payout_again i j a b p tok tok' x c s h =
    payout_amount_again i j a b p tok tok' (money x) c s h

payout_amount_covered :
    (i a p tok : ℕ) (x : ℤ) (c : String) (s : Books) {id : ℕ} {q : Payout}
    → (get_or_create_provider_account p c a s).0 ≡ ok id
    → (payout_amount i a p tok x c s).0 ≡ ok q
    → (pos q.amount ≡ x) × (x ≤ℤ sum_entries id s.entries)
payout_amount_covered i a p tok (negsuc n) c s acc h = absurd (unfold payout_amount in ground arith)
payout_amount_covered i a p tok (pos zero) c s acc h = absurd (unfold payout_amount in ground arith)
payout_amount_covered i a p tok (pos (suc n)) c s {id} acc h =
    let (k, x, t, there, e) = account_found p a c s in
    let same : k ≡ id = cc (ap (λ r. r.0) (sym e) ∙ acc) in
    let known = payout_amount_known i a p tok n k c s t e in
    let done =
      pay_from_cases i p tok (suc n) c (sum_entries k s.entries) (record s { accounts = t })
        (rw known at h) in
    (ap pos done.0, rw same at done.1)

-- An accepted payout request is covered by the balance of the provider's account.
pub request_payout_covered :
    (i a p tok : ℕ) (x : Decimal) (c : String) (s : Books) {id : ℕ} {q : Payout}
    → (get_or_create_provider_account p c a s).0 ≡ ok id
    → (request_payout i a p tok x c s).0 ≡ ok q
    → (pos q.amount ≡ money x) × (money x ≤ℤ sum_entries id s.entries)
unfolding request_payout
request_payout_covered i a p tok x c s acc h = payout_amount_covered i a p tok (money x) c s acc h

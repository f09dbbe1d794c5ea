-- ===== src/Finance/Ledger.antt =====
-- The wallet ledger, app/services/ledger_v2.py. An account is found by its owner and currency
-- (the unique indexes of the table), an entry by account, reference and direction.
pub mod Laws
mod Tests
use text.Mathlib.Text.{◌==◌ as str_eq}
use thuso_wechat_ls.Base.{
  ℕ, ◌+◌, Bool, true, false, ◌&&◌, Option, none, some, List, [], ◌∷◌, ◌++◌, String, ◌==◌, leb,
  if◌then◌else◌, find_where, put, Exec, ok, err, value_error,
}
use thuso_wechat_ls.Base.Int.{ℤ, pos, negsuc, ◌+ℤ◌, ◌-ℤ◌}
use thuso_wechat_ls.Finance.Books.{
  Books, Owner, user, provider, Account, Entry, Direction, credit, debit,
}

abbrev pub same_owner : Owner → Owner → Bool
same_owner (user a) (user b) = a == b
same_owner (provider a) (provider b) = a == b
same_owner _ _ = false

abbrev pub same_direction : Direction → Direction → Bool
same_direction credit credit = true
same_direction debit debit = true
same_direction _ _ = false

-- `insert ... on conflict do nothing returning id`, else the `select` of the account that is there.
get_or_create_account : Owner → String → ℕ → Exec Books ℕ
get_or_create_account owner currency new_id s =
    elim (find_where (λ _ a. same_owner a.owner owner && str_eq a.currency currency) s.accounts) [
      | some (id, _) ↦ (ok id, s)
      | none ↦ (
        ok new_id,
        record s {
          accounts = put new_id (record { owner = owner; currency = currency }) s.accounts;
        },
      )
    ]

unfoldable pub get_or_create_user_account : ℕ → String → ℕ → Exec Books ℕ
unfolding get_or_create_account
get_or_create_user_account user_id = get_or_create_account (user user_id)

unfoldable pub get_or_create_provider_account : ℕ → String → ℕ → Exec Books ℕ
unfolding get_or_create_account
get_or_create_provider_account provider_id = get_or_create_account (provider provider_id)

abbrev pub same_key : Entry → Entry → Bool
same_key a b =
    a.account_id == b.account_id
    && str_eq a.reference b.reference
    && same_direction a.direction b.direction

unfoldable pub contains_key : Entry → List Entry → Bool
contains_key e [] = false
contains_key e (x ∷ l) = if same_key x e then true else contains_key e l

-- `on conflict(account_id,reference,direction) do nothing`
abbrev pub insert_entry : Entry → List Entry → List Entry
insert_entry e l = if contains_key e l then l else l ++ (e ∷ [])

-- The amount arrives as a signed Decimal in cents. A direction that is neither 'credit' nor
-- 'debit', which the code refuses as well, is excluded by the type.
unfoldable pub post_entry : ℕ → String → Direction → ℤ → String → Exec Books (Unit {0})
unfolding contains_key
post_entry account_id reference direction (pos (Prim.Native.Nat.suc n)) currency s = (
  ok tt,
  record s {
    entries =
        insert_entry
          (record {
            account_id = account_id;
            reference = reference;
            direction = direction;
            amount = Prim.Native.Nat.suc n;
            currency = currency;
          })
          s.entries;
  },
)
post_entry account_id reference direction _ currency s =
    (err value_error "amount must be positive", s)

-- `case when direction='credit' then amount else -amount end`
abbrev pub signed : Direction → ℕ → ℤ → ℤ
signed credit amount acc = acc +ℤ pos amount
signed debit amount acc = acc -ℤ pos amount

unfoldable pub sum_entries : ℕ → List Entry → ℤ
sum_entries account_id [] = pos 0
sum_entries account_id (e ∷ l) =
    let rest = sum_entries account_id l in
    if e.account_id == account_id then signed e.direction e.amount rest else rest

unfoldable pub balance : ℕ → Exec Books ℤ
unfolding sum_entries
balance account_id s = (ok (sum_entries account_id s.entries), s)

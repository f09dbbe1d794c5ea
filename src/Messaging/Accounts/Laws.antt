-- ===== src/Messaging/Accounts/Laws.antt =====
-- The account that is chosen is one that may send.
use text.Mathlib.TextEquality.{eq_iff}
use thuso_wechat_ls.Base.{
  ℕ, true, false, ◌≡◌, inl, inr, Option, some, String, arith, find_where, ok, Stands,
  find_where-Stands, Option-cases,
}
use thuso_wechat_ls.Messaging.Accounts.{
  WaAccount, Directory, OutboundAccount, outbound, is_unrevoked, is_stopped, given, answer,
  resolve_rows, resolve_outbound_account, has_active_key, bound_accounts,
}

-- The account is the row of the directory with the key that was asked for, it is not revoked, and it
-- is not stopped.
pub record MaySend (d : Directory) (asked : Option String) (o : OutboundAccount) : Type 0 where
  pub key : String
  pub id : ℕ
  pub row : WaAccount
  pub named : given asked ≡ some key
  pub stands : Stands id row d.accounts
  pub shown : o ≡ outbound (id, row)
  pub has_key : row.account_key ≡ key
  pub unrevoked : is_unrevoked row ≡ true
  pub not_stopped : is_stopped row.status ≡ false

answer-MaySend :
    (d : Directory) (m key : String) (asked : Option String) {o : OutboundAccount}
    → given asked ≡ some key
    → answer m (find_where (has_active_key key) d.accounts) ≡ ok o
    → MaySend d asked o
unfolding answer
answer-MaySend d m key asked {o} named h =
    elim (Option-cases (find_where (has_active_key key) d.accounts)) [
      | inl missing ↦ absurd (cc (rw missing at h))
      | inr ((k, a), found) ↦
          let s = find_where-Stands (has_active_key key) d.accounts found in
          record {
            key = key;
            id = k;
            row = a;
            named = named;
            stands = s.0;
            shown = cc (rw found at h);
            has_key = ground (arith, s.1, eq_iff a.account_key key);
            unrevoked = ground (arith, s.1);
            not_stopped = ground (arith, s.1);
          }
    ]

-- An account is found only where its key is given, since the query for the bound accounts is refused:
-- it is the row of the directory with that key, neither revoked nor stopped.
pub resolve_outbound_account-MaySend :
    (d : Directory) (recipient : String) (key : Option String) {o : OutboundAccount}
    → resolve_outbound_account d recipient key ≡ ok o
    → MaySend d key o
unfolding resolve_outbound_account bound_accounts resolve_rows
resolve_outbound_account-MaySend d recipient key h = elim (Option-cases (given key)) [
  | inl free ↦ absurd (cc (rw (free, resolve_outbound_account) at h))
  | inr (k, set) ↦
      answer-MaySend d "explicit WhatsApp account is not active or does not exist" k key set
        (rw (set, resolve_outbound_account) at h)
]

-- ===== src/Messaging/Accounts.antt =====
-- The account that sends a WhatsApp message: app/services/whatsapp_account_routing.py. Accounts are
-- stored newest first (`order by created_at desc`). PostgreSQL refuses `select distinct` with an order
-- by a column that is not selected.
pub mod Laws
mod Tests
use text.Mathlib.Text.{◌==◌ as str_eq, starts_with}
use thuso_wechat_ls.Base.{
  ℕ, Bool, true, false, ◌&&◌, ◌||◌, not, Option, none, some, List, [], ◌∷◌, String, ◌<>◌, ◌==◌,
  if◌then◌else◌, Table, find_where, select_where, Result, ok, err, account_routing_error,
  database_error, or_default, is_some,
}

pub data AccountStatus : Type 0 where
  qr_pending connecting connected disconnected stopped : AccountStatus

pub record WaAccount : Type 0 where
  pub account_key : String
  pub transport : String
  pub status : AccountStatus
  pub revoked_at : Option ℕ

pub record Identity : Type 0 where
  pub channel : String
  pub phone : String
  pub is_active : Bool
  pub wa_account_id : Option ℕ

pub record Directory : Type 0 where
  pub accounts : Table WaAccount
  pub identities : List Identity
  -- `get_settings().whatsapp_operator_account_key`
  pub operator_account_key : String

pub record OutboundAccount : Type 0 where
  pub account_key : String
  pub account_id : ℕ
  pub transport : String

abbrev pub is_stopped : AccountStatus → Bool
is_stopped AccountStatus.stopped = true
is_stopped _ = false

-- `revoked_at is null`
abbrev pub is_unrevoked : WaAccount → Bool
is_unrevoked a = not (is_some a.revoked_at)

-- `revoked_at is null and status <> 'stopped'`
abbrev pub is_active : ℕ → WaAccount → Bool
is_active _ a = is_unrevoked a && not (is_stopped a.status)

-- An optional text is given when it is not empty.
abbrev pub given : Option String → Option String
given none = none
given (some x) = if str_eq x "" then none else some x

-- `recipient if recipient.startswith('+') else '+' + recipient`
abbrev pub e164 : String → String
e164 recipient = if starts_with recipient "+" then recipient else "+" <> recipient

abbrev pub links : (account_id : ℕ) → String → Identity → Bool
links account_id phone i =
    str_eq i.channel "whatsapp"
    && (str_eq i.phone phone
        && (i.is_active && (elim i.wa_account_id [ none ↦ false | some id ↦ id == account_id ])))

-- An identity of the phone is joined to the account.
unfoldable pub is_bound : List Identity → String → ℕ → Bool
is_bound [] phone account_id = false
is_bound (i ∷ l) phone account_id = links account_id phone i || is_bound l phone account_id

abbrev pub bound_active : List Identity → String → ℕ → WaAccount → Bool
bound_active identities phone account_id a =
    is_bound identities phone account_id && is_active account_id a

abbrev pub outbound : ℕ × WaAccount → OutboundAccount
outbound (id, a) = record { account_key = a.account_key; account_id = id; transport = a.transport }

answer : String → Option (ℕ × WaAccount) → Result OutboundAccount
answer message none = err account_routing_error message
answer message (some r) = ok (outbound r)

abbrev pub has_active_key : String → ℕ → WaAccount → Bool
has_active_key key id a = str_eq a.account_key key && is_active id a

abbrev pub has_unrevoked_key : String → ℕ → WaAccount → Bool
has_unrevoked_key key _ a = str_eq a.account_key key && is_unrevoked a

-- The configured account, where no account is active; it may be stopped, but not revoked.
resolve_default : Directory → Result OutboundAccount
unfolding answer
resolve_default d =
    if str_eq d.operator_account_key ""
    then err account_routing_error "no unambiguous active WhatsApp account for recipient"
    else answer "no unambiguous active WhatsApp account for recipient"
        (find_where (has_unrevoked_key d.operator_account_key) d.accounts)

-- The `limit 2` of the query only spares rows that are not looked at.
resolve_sole : Directory → Table WaAccount → Result OutboundAccount
unfolding resolve_default
resolve_sole d [] = resolve_default d
resolve_sole d (r ∷ []) = ok (outbound r)
resolve_sole d (_ ∷ _ ∷ _) =
    err account_routing_error "no unambiguous active WhatsApp account for recipient"

resolve_bound : Directory → Table WaAccount → Result OutboundAccount
unfolding resolve_sole
resolve_bound d [] = resolve_sole d (select_where is_active d.accounts)
resolve_bound d (r ∷ []) = ok (outbound r)
resolve_bound d (_ ∷ _ ∷ _) =
    err account_routing_error
      "multiple active WhatsApp accounts match recipient; account_key is required"

-- The columns of the query for the bound accounts, and that of its order.
abbrev pub bound_columns : List String
bound_columns = "id" ∷ "account_key" ∷ "transport" ∷ []

abbrev pub bound_order : String
bound_order = "created_at"

-- Whether `select distinct` of these columns may be ordered by this one.
unfoldable pub may_order : String → List String → Bool
may_order key [] = false
may_order key (c ∷ l) = str_eq key c || may_order key l

-- `select distinct a.id,a.account_key,a.transport ... order by a.created_at desc`
unfoldable pub bound_accounts : Directory → String → Result (Table WaAccount)
unfolding may_order
bound_accounts d phone =
    if may_order bound_order bound_columns
    then ok (select_where (bound_active d.identities phone) d.accounts)
    else err database_error "for SELECT DISTINCT, ORDER BY expressions must appear in select list"

resolve_rows : Directory → Result (Table WaAccount) → Result OutboundAccount
unfolding resolve_bound
resolve_rows d (err k m) = err k m
resolve_rows d (ok rows) = resolve_bound d rows

pub resolve_outbound_account :
    Directory → (recipient : String) → (explicit : Option String) → Result OutboundAccount
unfolding answer resolve_rows bound_accounts
resolve_outbound_account d recipient explicit = elim (given explicit) [
  | some key ↦
      answer "explicit WhatsApp account is not active or does not exist"
        (find_where (has_active_key key) d.accounts)
  | none ↦ resolve_rows d (bound_accounts d (e164 recipient))
]

-- ===== src/Finance/Reconciliation.antt =====
-- Reconciliation with the providers and the execution of payouts: app/services/reconciliation.py.
-- Times are seconds. An item stands once in its batch under its external reference, so that the
-- items are keyed by a number of their own and found by batch and reference.
pub mod Laws
mod Tests
use text.Mathlib.Text.{◌==◌ as str_eq}
use thuso_wechat_ls.Base.{
  ℕ, ◌+◌, max, Bool, true, false, ◌&&◌, ◌||◌, not, Option, none, some, List, [], ◌∷◌, ◌++◌, String,
  ◌<>◌, ◌==◌, leb, if◌then◌else◌, is_some, Table, find, find_where, put, sum_by, update_where,
  update_row, commit_row, Exec, Result, ok, err, reconciliation_error, integrity_error,
  database_error,
}
use thuso_wechat_ls.Base.Int.{ℤ, pos, negsuc, leb_ℤ}
use thuso_wechat_ls.Money.{Decimal, money, cents}
use thuso_wechat_ls.Finance.Books.{Books, Payment, PaymentStatus, Payout, PayoutStatus}
use thuso_wechat_ls.Finance.Settlement.{AttemptStatus, is_executable}

pub data BatchStatus : Type 0 where
  open_batch matched_batch exception_batch : BatchStatus

pub record Batch : Type 0 where
  pub provider : String
  pub currency : String
  pub period_start : ℕ
  pub period_end : ℕ
  pub status : BatchStatus
  pub matched_count : ℕ
  pub exception_count : ℕ

pub data MatchStatus : Type 0 where
  matched exception : MatchStatus

pub record Item : Type 0 where
  pub batch_id : ℕ
  pub external_reference : String
  pub payment_id : Option ℕ
  pub amount : ℤ
  pub currency : String
  pub external_status : String
  pub internal_status : Option PaymentStatus
  pub match_status : MatchStatus
  pub mismatch_code : Option String

-- A row of `reconciliation_exceptions`.
pub record Exception : Type 0 where
  pub batch_id : ℕ
  pub item_id : ℕ
  pub code : String

pub record Destination : Type 0 where
  pub provider_id : ℕ
  pub rail : String
  pub destination_ref : String
  pub currency : String
  pub is_verified : Bool

pub record PayoutAttempt : Type 0 where
  pub payout_id : ℕ
  pub channel : String
  pub attempt_no : ℕ
  pub status : AttemptStatus
  pub external_reference : Option String

pub record Recon : Type 0 where
  pub books : Books
  pub batches : Table Batch
  pub items : Table Item
  pub exceptions : List Exception
  pub destinations : Table Destination
  pub attempts : Table PayoutAttempt

pub create_batch : (new_id : ℕ) → String → String → (period_start period_end : ℕ) → Exec Recon Batch
create_batch new_id provider currency period_start period_end s =
    let b : Batch = record {
      provider = provider;
      currency = currency;
      period_start = period_start;
      period_end = period_end;
      status = BatchStatus.open_batch;
      matched_count = 0;
      exception_count = 0;
    } in
    if leb period_end period_start
    then (err reconciliation_error "invalid reconciliation period", s)
    else (ok b, record s { batches = put new_id b s.batches })

abbrev pub eq_ℤ : ℤ → ℤ → Bool
eq_ℤ a b = leb_ℤ a b && leb_ℤ b a

abbrev pub same_text : String → Option String → Bool
same_text t none = false
same_text t (some x) = str_eq x t

-- `provider_reference=:ref or reference=:ref`
abbrev pub is_referred : String → ℕ → Payment → Bool
is_referred reference _ p = same_text reference p.provider_reference || str_eq p.reference reference

-- `status in ('paid','refunded')`
abbrev pub is_collected : PaymentStatus → Bool
is_collected PaymentStatus.paid = true
is_collected PaymentStatus.refunded = true
is_collected _ = false

abbrev pub agrees : ℤ → String → Payment → Bool
agrees amount currency p =
    eq_ℤ (money (cents (pos p.amount))) amount
    && (str_eq p.currency currency && is_collected p.status)

abbrev pub is_item : ℕ → String → ℕ → Item → Bool
is_item batch_id reference _ i = i.batch_id == batch_id && str_eq i.external_reference reference

-- `insert ... on conflict(batch_id,external_reference) do update set ... returning *`
unfoldable pub upsert_item :
    (new_id : ℕ) → (Item → Item) → Item → Table Item → (ℕ × Item) × Table Item
upsert_item new_id change new t =
    elim (find_where (is_item new.batch_id new.external_reference) t) [
      | none ↦ ((new_id, new), put new_id new t)
      | some (id, old) ↦ ((id, change old), put id (change old) t)
    ]

abbrev pub mismatch_code_of : ℤ → Option (ℕ × Payment) → String
mismatch_code_of amount none = "NOT_FOUND"
mismatch_code_of amount (some (_, p)) =
    if eq_ℤ (money (cents (pos p.amount))) amount
    then "STATE_OR_CURRENCY_MISMATCH"
    else "AMOUNT_MISMATCH"

abbrev pub status_of : Option (ℕ × Payment) → Option PaymentStatus
status_of none = none
status_of (some (_, p)) = some p.status

-- The payment that the item matches, if it agrees.
abbrev pub agreeing : ℤ → String → Option (ℕ × Payment) → Option (ℕ × Payment)
agreeing amount currency none = none
agreeing amount currency (some (id, p)) = if agrees amount currency p then some (id, p) else none

unfoldable pub write_item :
    (new_id batch_id : ℕ)
    → String
    → ℤ
    → String
    → String
    → Option (ℕ × Payment)
    → Option (ℕ × Payment)
    → Recon
    → Item × Recon
unfolding upsert_item
write_item new_id batch_id reference amount currency external_status payment (some (id, p)) s =
    let (row, t) =
      upsert_item new_id
        (λ i. record i {
          match_status = MatchStatus.matched;
          payment_id = some id;
          internal_status = some p.status;
        })
        (record {
          batch_id = batch_id;
          external_reference = reference;
          payment_id = some id;
          amount = amount;
          currency = currency;
          external_status = external_status;
          internal_status = some p.status;
          match_status = MatchStatus.matched;
          mismatch_code = none;
        })
        s.items in
    (row.1, record s { items = t })
write_item new_id batch_id reference amount currency external_status payment none s =
    let code = mismatch_code_of amount payment in
    let (row, t) =
      upsert_item new_id
        (λ i. record i { match_status = MatchStatus.exception; mismatch_code = some code })
        (record {
          batch_id = batch_id;
          external_reference = reference;
          payment_id = none;
          amount = amount;
          currency = currency;
          external_status = external_status;
          internal_status = status_of payment;
          match_status = MatchStatus.exception;
          mismatch_code = some code;
        })
        s.items in
    (
      row.1,
      record s {
        items = t;
        exceptions =
            s.exceptions ++ (record { batch_id = batch_id; item_id = row.0; code = code } ∷ []);
      },
    )

-- The answer is the row of the item.
pub match_item : (new_id batch_id : ℕ) → String → Decimal → String → String → Recon → Item × Recon
unfolding write_item
match_item new_id batch_id reference amount currency external_status s =
    let payment = find_where (is_referred reference) s.books.payments in
    write_item new_id batch_id reference (money amount) currency external_status payment
      (agreeing (money amount) currency payment) s

abbrev pub is_matched : MatchStatus → Bool
is_matched MatchStatus.matched = true
is_matched MatchStatus.exception = false

-- `count(*) filter(where match_status=...)`
abbrev pub count_items : Bool → ℕ → Table Item → ℕ
count_items true batch_id =
    sum_by (λ i. if i.batch_id == batch_id && is_matched i.match_status then 1 else 0)
count_items false batch_id =
    sum_by (λ i. if i.batch_id == batch_id && not (is_matched i.match_status) then 1 else 0)

abbrev pub is_open : BatchStatus → Bool
is_open BatchStatus.open_batch = true
is_open _ = false

pub close_batch : (batch_id : ℕ) → Exec Recon Batch
close_batch batch_id s =
    let exceptions = count_items false batch_id s.items in
    commit_row
      (update_row batch_id (λ b. is_open b.status)
        (λ b. record b {
          status =
              if exceptions == 0 then BatchStatus.matched_batch else BatchStatus.exception_batch;
          matched_count = count_items true batch_id s.items;
          exception_count = exceptions;
        })
        s.batches)
      (λ t r. record r { batches = t }) reconciliation_error "batch unavailable or already closed" s

-- `unique(provider_id,rail,destination_ref)`
abbrev pub same_destination : ℕ → String → String → ℕ → Destination → Bool
same_destination provider_id rail destination_ref _ d =
    d.provider_id == provider_id && (str_eq d.rail rail && str_eq d.destination_ref destination_ref)

abbrev pub verify_row : Destination → Destination
verify_row d = record d { is_verified = true }

-- `strip` is Python's `str.strip`.
pub verify_destination :
    (strip : String → String)
    → (new_id provider_id : ℕ) → (rail destination_ref currency : String) → Exec Recon Destination
verify_destination strip new_id provider_id rail destination_ref currency s =
    let d : Destination = record {
      provider_id = provider_id;
      rail = rail;
      destination_ref = destination_ref;
      currency = currency;
      is_verified = true;
    } in
    if str_eq (strip destination_ref) ""
    then (err reconciliation_error "destination reference required", s)
    else elim (find_where (same_destination provider_id rail destination_ref) s.destinations) [
      | none ↦ (ok d, record s { destinations = put new_id d s.destinations })
      | some (id, old) ↦
          (ok (verify_row old), record s { destinations = put id (verify_row old) s.destinations })
    ]

abbrev pub is_destination : ℕ → String → String → ℕ → Destination → Bool
is_destination provider_id rail destination_ref _ d =
    d.provider_id == provider_id
    && (str_eq d.rail rail && (str_eq d.destination_ref destination_ref && d.is_verified))

-- `coalesce(max(attempt_no),0)+1`
unfoldable pub next_attempt : ℕ → Table PayoutAttempt → ℕ
next_attempt payout_id [] = 1
next_attempt payout_id ((k, a) ∷ t) =
    let rest = next_attempt payout_id t in
    if a.payout_id == payout_id then max (a.attempt_no + 1) rest else rest

abbrev pub at_payout : ℕ → ℕ → Payout → Bool
at_payout id k _ = k == id

abbrev pub start_paying : Payout → Payout
start_paying p = record p { status = PayoutStatus.processing }

unfoldable pub execute_to :
    (new_id payout_id : ℕ) → String → Option (ℕ × Destination) → Exec Recon PayoutAttempt
unfolding next_attempt
execute_to new_id payout_id rail none s =
    (err reconciliation_error "payout destination is not verified", s)
execute_to new_id payout_id rail (some d) s =
    let a : PayoutAttempt = record {
      payout_id = payout_id;
      channel = rail;
      attempt_no = next_attempt payout_id s.attempts;
      status = AttemptStatus.processing;
      external_reference = none;
    } in
    (
      ok a,
      record s {
        attempts = put new_id a s.attempts;
        books = record s.books {
          payouts = update_where (at_payout payout_id) start_paying s.books.payouts;
        };
      },
    )

unfoldable pub execute_found :
    (new_id payout_id : ℕ) → String → String → Option Payout → Exec Recon PayoutAttempt
unfolding execute_to
execute_found new_id payout_id rail destination_ref none s =
    (err reconciliation_error "payout not found", s)
execute_found new_id payout_id rail destination_ref (some p) s =
    if is_executable p.status
    then execute_to new_id payout_id rail
        (find_where (is_destination p.provider_id rail destination_ref) s.destinations) s
    else (err reconciliation_error "payout not executable", s)

pub execute_payout : (new_id payout_id : ℕ) → String → String → Exec Recon PayoutAttempt
unfolding execute_found
execute_payout new_id payout_id rail destination_ref s =
    execute_found new_id payout_id rail destination_ref (find payout_id s.books.payouts) s

abbrev pub is_attempting : AttemptStatus → Bool
is_attempting AttemptStatus.processing = true
is_attempting _ = false

abbrev pub is_paying : PayoutStatus → Bool
is_paying PayoutStatus.processing = true
is_paying _ = false

abbrev pub mark_payout_paid : Payout → Payout
mark_payout_paid p = record p { status = PayoutStatus.paid }

-- The columns of `provider_payouts`.
abbrev pub payout_columns : List String
payout_columns =
    "id" ∷ "provider_id" ∷ "amount" ∷ "currency" ∷ "status" ∷ "reference" ∷ "provider_reference"
    ∷ "created_at" ∷ "processed_at" ∷ []

unfoldable pub has_column : String → List String → Bool
has_column name [] = false
has_column name (c ∷ l) = str_eq name c || has_column name l

-- `update provider_payouts set status='paid',paid_at=now() where id=:id and status='processing'`; a
-- column that the table lacks is refused.
unfoldable pub pay_payout : (payout_id : ℕ) → Table Payout → Result (Option (Payout × Table Payout))
unfolding has_column
pay_payout payout_id t =
    if has_column "paid_at" payout_columns
    then ok (update_row payout_id (λ p. is_paying p.status) mark_payout_paid t)
    else err database_error "column \"paid_at\" of relation \"provider_payouts\" does not exist"

-- The payout of the attempt, once the attempt is written.
abbrev pub paid_row :
    PayoutAttempt → Result (Option (Payout × Table Payout)) → Exec Recon (PayoutAttempt × Payout)
paid_row a (err k m) s = (err k m, s)
paid_row a (ok none) s = (err reconciliation_error "payout state transition failed", s)
paid_row a (ok (some (p, payouts))) s =
    (ok (a, p), record s { books = record s.books { payouts = payouts } })

unfoldable pub complete_attempt :
    Option (PayoutAttempt × Table PayoutAttempt) → Exec Recon (PayoutAttempt × Payout)
unfolding pay_payout
complete_attempt none s = (err reconciliation_error "payout attempt unavailable", s)
complete_attempt (some (a, attempts)) s =
    paid_row a (pay_payout a.payout_id s.books.payouts) (record s { attempts = attempts })

pub complete_payout : (attempt_id : ℕ) → String → Exec Recon (PayoutAttempt × Payout)
unfolding complete_attempt
complete_payout attempt_id reference s =
    complete_attempt
      (update_row attempt_id (λ a. is_attempting a.status)
        (λ a. record a { status = AttemptStatus.succeeded; external_reference = some reference })
        s.attempts)
      s

-- ===== src/Finance/Settlement.antt =====
-- Settlement of captured payments, reserves and payouts: app/services/settlement.py. The tables of
-- the money services come with those of the settlement. An error of the database undoes what the
-- call has done. A settlement stands under its payment (`unique(payment_id)`), a payout attempt under
-- its payout, since its number is always 1.
pub mod Laws
mod Tests
pub mod Journal
use text.Mathlib.Text.{◌==◌ as str_eq}
use thuso_wechat_ls.Base.{
  ℕ, zero, suc, ◌+◌, Bool, true, false, ◌&&◌, ◌||◌, not, Option, none, some, List, [], ◌∷◌, ◌++◌,
  String, ◌<>◌, ◌==◌, if◌then◌else◌, Table, find, put, find_where, update_row, commit_row, sum_by,
  Exec, Result, ok, err, settlement_error, integrity_error,
}
use thuso_wechat_ls.Base.Uuid.{uuid_text}
use thuso_wechat_ls.Base.Int.{ℤ, pos, negsuc, ltb_ℤ, leb_ℤ, ◌-ℤ◌, pos_part}
use thuso_wechat_ls.Money.{Decimal, money, cents, times, ten_percent}
use thuso_wechat_ls.Finance.Books.{
  Books, Payment, Payout, PayoutStatus, Direction, credit, debit, Entry, Account, provider, is_paid,
}
use thuso_wechat_ls.Finance.Ledger.{same_owner, signed}

pub data SettlementStatus : Type 0 where
  pending settled reversed partially_reversed : SettlementStatus

pub record Settlement : Type 0 where
  pub service_request_id : Option ℕ
  pub provider_id : ℕ
  pub currency : String
  pub gross_amount : ℕ
  pub platform_fee : ℕ
  pub provider_amount : ℕ
  pub status : SettlementStatus
  pub journal_id : ℕ

pub record Line : Type 0 where
  pub journal_id : ℕ
  pub account_code : String
  pub direction : Direction
  pub amount : ℕ

pub data ReserveStatus : Type 0 where
  held released consumed : ReserveStatus

pub record Reserve : Type 0 where
  pub provider_id : ℕ
  pub payment_id : ℕ
  pub amount : ℕ
  pub currency : String
  pub status : ReserveStatus
  pub reference : String

pub data AttemptStatus : Type 0 where
  pending processing succeeded failed : AttemptStatus

pub record Treasury : Type 0 where
  pub books : Books
  -- a journal's reference
  pub journals : Table String
  pub lines : List Line
  pub settlements : Table Settlement
  pub reserves : Table Reserve
  pub attempts : Table AttemptStatus

-- The amounts in cents: gross, fee and what the provider earns.
unfoldable pub split_amounts : ℤ → ℤ → Result (ℕ × ℕ × ℕ)
split_amounts gross platform_fee =
    if leb_ℤ gross (pos 0) || (ltb_ℤ platform_fee (pos 0) || ltb_ℤ gross platform_fee)
    then err settlement_error "invalid settlement amounts"
    else ok
        (pos_part gross, pos_part platform_fee, pos_part (money (cents (gross -ℤ platform_fee))))

unfoldable pub split_settlement : Decimal → Decimal → Result (ℕ × ℕ × ℕ)
unfolding split_amounts
split_settlement gross platform_fee = split_amounts (money gross) (money platform_fee)

abbrev pub is_settled : SettlementStatus → Bool
is_settled SettlementStatus.settled = true
is_settled _ = false

-- `platform_fee if platform_fee is not None else gross*Decimal('0.10')`
abbrev pub fee_or_default : Option Decimal → ℤ → Decimal
fee_or_default none gross = times gross ten_percent
fee_or_default (some f) gross = f

abbrev pub settlement_reference : ℕ → String
settlement_reference payment_id = "settlement:" <> uuid_text payment_id

-- `insert ... on conflict(reference) do update set reference=excluded.reference returning id`
abbrev pub journal_for : String → ℕ → Table String → ℕ × Table String
journal_for reference new_id journals = elim (find_where (λ _ r. str_eq r reference) journals) [
  | some (id, _) ↦ (id, journals)
  | none ↦ (new_id, put new_id reference journals)
]

abbrev pub lines_of : (journal_id gross fee earning : ℕ) → List Line
lines_of journal_id gross fee earning =
    record {
      journal_id = journal_id;
      account_code = "payment_clearing";
      direction = debit;
      amount = gross;
    }
    ∷ record {
      journal_id = journal_id;
      account_code = "platform_revenue";
      direction = credit;
      amount = fee;
    }
    ∷ record {
      journal_id = journal_id;
      account_code = "provider_payable";
      direction = credit;
      amount = earning;
    }
    ∷ []

-- `on conflict(payment_id) do update set status='settled',journal_id=excluded.journal_id`
abbrev pub settle_row : Option Settlement → Settlement → Settlement
settle_row none new = new
settle_row (some old) new = record old {
  status = SettlementStatus.settled;
  journal_id = new.journal_id;
}

-- The journal, its lines, which are refused when one of them is 0, and the settlement.
unfoldable pub write_settlement :
    (new_id payment_id provider_id : ℕ)
    → Payment
    → Option Settlement
    → Result (ℕ × ℕ × ℕ)
    → Exec Treasury Settlement
write_settlement new_id payment_id provider_id p old (err k m) s = (err k m, s)
write_settlement new_id payment_id provider_id p old (ok (gross, fee, earning)) s =
    let (journal, journals) = journal_for (settlement_reference payment_id) new_id s.journals in
    let row = settle_row old (record {
      service_request_id = p.service_request_id;
      provider_id = provider_id;
      currency = p.currency;
      gross_amount = gross;
      platform_fee = fee;
      provider_amount = earning;
      status = SettlementStatus.settled;
      journal_id = journal;
    }) in
    if gross == 0 || (fee == 0 || earning == 0)
    then (err integrity_error "financial_journal_lines_amount_check", s)
    else (
      ok row,
      record s {
        journals = journals;
        lines = s.lines ++ lines_of journal gross fee earning;
        settlements = put payment_id row s.settlements;
      },
    )

abbrev pub split_found : Option Decimal → Payment → Result (ℕ × ℕ × ℕ)
split_found platform_fee p =
    split_settlement (cents (money (cents (pos p.amount))))
      (cents (money (fee_or_default platform_fee (money (cents (pos p.amount))))))

abbrev pub settle_new :
    (new_id payment_id provider_id : ℕ)
    → Option Decimal
    → Payment
    → Option Settlement
    → Exec Treasury Settlement
settle_new new_id payment_id provider_id platform_fee p old =
    write_settlement new_id payment_id provider_id p old (split_found platform_fee p)

-- A settlement that is there and settled comes back as it is.
unfoldable pub settle_paid :
    (new_id payment_id provider_id : ℕ)
    → Option Decimal
    → Payment
    → Option Settlement
    → Exec Treasury Settlement
unfolding write_settlement split_settlement
settle_paid new_id payment_id provider_id platform_fee p none s =
    settle_new new_id payment_id provider_id platform_fee p none s
settle_paid new_id payment_id provider_id platform_fee p (some old) s =
    if is_settled old.status
    then (ok old, s)
    else settle_new new_id payment_id provider_id platform_fee p (some old) s

unfoldable pub settle_found :
    (new_id payment_id provider_id : ℕ) → Option Decimal → Option Payment → Exec Treasury Settlement
unfolding settle_paid
settle_found new_id payment_id provider_id platform_fee none s =
    (err settlement_error "payment not found", s)
settle_found new_id payment_id provider_id platform_fee (some p) s =
    if is_paid p.status
    then settle_paid new_id payment_id provider_id platform_fee p (find payment_id s.settlements) s
    else (err settlement_error "payment is not captured", s)

pub settle_payment : (new_id payment_id provider_id : ℕ) → Option Decimal → Exec Treasury Settlement
unfolding settle_found
settle_payment new_id payment_id provider_id platform_fee s =
    settle_found new_id payment_id provider_id platform_fee (find payment_id s.books.payments) s

abbrev pub reserve_reference : ℕ → ℕ → String
reserve_reference payment_id provider_id =
    "reserve:" <> uuid_text payment_id <> ":" <> uuid_text provider_id

hold : (new_id provider_id payment_id : ℕ) → ℤ → String → Exec Treasury Reserve
hold new_id provider_id payment_id (pos (suc n)) currency s =
    let r : Reserve = record {
      provider_id = provider_id;
      payment_id = payment_id;
      amount = suc n;
      currency = currency;
      status = ReserveStatus.held;
      reference = reserve_reference payment_id provider_id;
    } in
    elim (find_where (λ _ q. str_eq q.reference r.reference) s.reserves) [
      | some (_, q) ↦ (ok q, s)
      | none ↦ (ok r, record s { reserves = put new_id r s.reserves })
    ]
hold new_id provider_id payment_id _ currency s =
    (err settlement_error "reserve must be positive", s)

pub hold_provider_reserve :
    (new_id provider_id payment_id : ℕ) → Decimal → String → Exec Treasury Reserve
unfolding hold
hold_provider_reserve new_id provider_id payment_id amount =
    hold new_id provider_id payment_id (money amount)

abbrev pub is_held : ReserveStatus → Bool
is_held ReserveStatus.held = true
is_held _ = false

pub release_reserve : (reserve_id : ℕ) → Exec Treasury Reserve
release_reserve reserve_id s =
    commit_row
      (update_row reserve_id (λ r. is_held r.status)
        (λ r. record r { status = ReserveStatus.released }) s.reserves)
      (λ t b. record b { reserves = t }) settlement_error "reserve unavailable" s

-- `a.owner_provider_id=:pid and a.currency=:currency`, for the entry's account.
abbrev pub is_owned : ℕ → String → Option Account → Bool
is_owned provider_id currency none = false
is_owned provider_id currency (some a) =
    same_owner a.owner (provider provider_id) && str_eq a.currency currency

unfoldable pub available_of : ℕ → String → Table Account → List Entry → ℤ
available_of provider_id currency accounts [] = pos 0
available_of provider_id currency accounts (e ∷ l) =
    let rest = available_of provider_id currency accounts l in
    if is_owned provider_id currency (find e.account_id accounts)
    then signed e.direction e.amount rest
    else rest

abbrev pub reserved_of : ℕ → String → Table Reserve → ℕ
reserved_of provider_id currency = sum_by (λ r.
    if r.provider_id == provider_id && (str_eq r.currency currency && is_held r.status)
    then r.amount
    else 0)

-- `status not in ('requested','processing')`, negated.
abbrev pub is_executable : PayoutStatus → Bool
is_executable PayoutStatus.requested = true
is_executable PayoutStatus.processing = true
is_executable _ = false

unfoldable pub start_payout : (payout_id : ℕ) → Option Payout → Exec Treasury AttemptStatus
unfolding available_of
start_payout payout_id none s = (err settlement_error "payout not found", s)
start_payout payout_id (some p) s =
    let available = available_of p.provider_id p.currency s.books.accounts s.books.entries in
    let reserved = reserved_of p.provider_id p.currency s.reserves in
    if not (is_executable p.status)
    then (err settlement_error "payout not executable", s)
    else if ltb_ℤ (available -ℤ pos reserved) (pos p.amount)
    then (err settlement_error "insufficient available balance after reserves", s)
    else (
      ok AttemptStatus.processing,
      record s { attempts = put payout_id AttemptStatus.processing s.attempts },
    )

pub payout_with_reservation : (payout_id : ℕ) → Exec Treasury AttemptStatus
unfolding start_payout
payout_with_reservation payout_id s = start_payout payout_id (find payout_id s.books.payouts) s

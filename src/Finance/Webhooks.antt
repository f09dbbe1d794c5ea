-- ===== src/Finance/Webhooks.antt =====
-- Webhooks of the payment providers: `process_provider_webhook` of
-- app/services/payment_provider_service.py. `lower` is Python's `str.lower`.
pub mod Laws
mod Tests
use text.Mathlib.Text.{◌==◌ as str_eq}
use thuso_wechat_ls.Base.{
  ℕ, Bool, true, false, ◌&&◌, ◌||◌, Option, none, some, List, [], ◌∷◌, String, ◌==◌, if◌then◌else◌,
  Table, find_where, put, update_where, Exec, Result, ok, err, provider_payment_error,
}
use thuso_wechat_ls.Base.Uuid.{uuid_text}
use thuso_wechat_ls.Finance.Books.{Books, Payment, PaymentStatus}

-- The keys of the event that the code reads; an empty text counts as missing.
pub record Event : Type 0 where
  pub event_id : Option String
  pub id : Option String
  pub reference : Option String
  pub payment_id : Option String
  pub merchant_reference : Option String
  pub status : Option String
  pub event_type : Option String

-- A row of `payment_events`, with the payment once it is processed.
pub record PaymentEvent : Type 0 where
  pub provider : String
  pub external_event_id : String
  pub event_type : String
  pub payment_id : Option ℕ

pub record Webhooks : Type 0 where
  pub books : Books
  pub events : Table PaymentEvent

pub data Answer : Type 0 where
  duplicate : String → Answer
  updated : (payment_id : ℕ) → (status : String) → Answer

-- `a or b`
abbrev pub or_else : Option String → Option String → Option String
or_else none b = b
or_else (some x) b = if str_eq x "" then b else some x

-- `x or ''`, then a test of truth.
abbrev pub non_empty : Option String → Option String
non_empty x = or_else x none

abbrev pub or_text : Option String → String → String
or_text none d = d
or_text (some x) d = x

-- `mapping.get(status)`
abbrev pub target_of : String → Option PaymentStatus
target_of status =
    if str_eq status "success"
      || (str_eq status "succeeded" || (str_eq status "paid" || str_eq status "captured"))
    then some PaymentStatus.paid
    else if str_eq status "authorized"
    then some PaymentStatus.authorized
    else if str_eq status "pending"
    then some PaymentStatus.pending
    else if str_eq status "failed"
    then some PaymentStatus.failed
    else if str_eq status "cancelled" || str_eq status "canceled"
    then some PaymentStatus.cancelled
    else none

abbrev pub status_text : PaymentStatus → String
status_text PaymentStatus.pending = "pending"
status_text PaymentStatus.authorized = "authorized"
status_text PaymentStatus.paid = "paid"
status_text PaymentStatus.failed = "failed"
status_text PaymentStatus.refunded = "refunded"
status_text PaymentStatus.cancelled = "cancelled"

-- `unique(provider,external_event_id)`
abbrev pub is_event : String → String → ℕ → PaymentEvent → Bool
is_event provider external_event_id _ e =
    str_eq e.provider provider && str_eq e.external_event_id external_event_id

abbrev pub same_reference : String → Option String → Bool
same_reference reference none = false
same_reference reference (some r) = str_eq r reference

-- `id::text=:ref or reference=:ref or provider_reference=:ref`
abbrev pub is_meant : String → ℕ → Payment → Bool
is_meant reference id p =
    str_eq (uuid_text id) reference
    || (str_eq p.reference reference || same_reference reference p.provider_reference)

abbrev pub at_payment : ℕ → ℕ → Payment → Bool
at_payment id k _ = k == id

abbrev pub set_status : PaymentStatus → Payment → Payment
set_status status p = record p { status = status }

abbrev pub set_target : ℕ → Option PaymentStatus → Table Payment → Table Payment
set_target id none t = t
set_target id (some status) t = update_where (at_payment id) (set_status status) t

abbrev pub answer_status : Option PaymentStatus → String → String
answer_status none status = status
answer_status (some target) status = status_text target

abbrev pub processed : ℕ → PaymentEvent → PaymentEvent
processed id e = record e { payment_id = some id }

abbrev pub at_event : ℕ → ℕ → PaymentEvent → Bool
at_event id k _ = k == id

-- The payment takes the status of the event, whatever its own is.
unfoldable pub apply_event : (row_id : ℕ) → String → Option (ℕ × Payment) → Exec Webhooks Answer
apply_event row_id status none s = (err provider_payment_error "payment not found", s)
apply_event row_id status (some (id, _)) s = (
  ok (updated id (answer_status (target_of status) status)),
  record {
    books = record s.books { payments = set_target id (target_of status) s.books.payments };
    events = update_where (at_event row_id) (processed id) s.events;
  },
)

unfoldable pub apply_reference : (row_id : ℕ) → String → Option String → Exec Webhooks Answer
unfolding apply_event
apply_reference row_id status none s =
    (err provider_payment_error "webhook missing payment reference", s)
apply_reference row_id status (some reference) s =
    apply_event row_id status (find_where (is_meant reference) s.books.payments) s

unfoldable pub record_event :
    (row_id : ℕ) → (provider external_event_id status : String) → Event → Exec Webhooks Answer
unfolding apply_reference
record_event row_id provider external_event_id status event s =
    elim (find_where (is_event provider external_event_id) s.events) [
      | some _ ↦ (ok (duplicate external_event_id), s)
      | none ↦
          apply_reference row_id status
            (non_empty
              (or_else event.payment_id (or_else event.merchant_reference event.reference)))
            (record s {
              events =
                  put row_id
                    (record {
                      provider = provider;
                      external_event_id = external_event_id;
                      event_type = or_text event.event_type "payment.updated";
                      payment_id = none;
                    })
                    s.events;
            })
    ]

-- `event.get('event_id') or event.get('id') or event.get('reference') or ''`
abbrev pub external_id : Event → Option String
external_id event = non_empty (or_else event.event_id (or_else event.id event.reference))

pub process_provider_webhook :
    (lower : String → String) → (row_id : ℕ) → (provider : String) → Event → Exec Webhooks Answer
unfolding record_event
process_provider_webhook lower row_id provider event s = elim (external_id event) [
  | none ↦ (err provider_payment_error "webhook missing event id", s)
  | some external_event_id ↦
      record_event row_id provider external_event_id (lower (or_text event.status "")) event s
]

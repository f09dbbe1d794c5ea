-- ===== src/Finance/Webhooks/Laws.antt =====
-- An event counts once; the status of a payment is overwritten.
use thuso_wechat_ls.Base.{
  ℕ, ◌≡◌, refl, Option, none, some, String, arith, Table, find, find_where, find-update_where,
  update_where, ok,
}
use thuso_wechat_ls.Finance.Books.{Payment, PaymentStatus}
use thuso_wechat_ls.Finance.Webhooks.{
  Event, Webhooks, updated, is_event, is_meant, at_payment, set_status, status_text, apply_event,
  apply_reference, record_event, external_id, process_provider_webhook, non_empty, or_else,
  target_of, or_text,
}

process_provider_webhook_known :
    (lower : String → String) (i : ℕ) (prov ext : String) (event : Event) (s : Webhooks)
    → external_id event ≡ some ext
    → process_provider_webhook lower i prov event s
      ≡ record_event i prov ext (lower (or_text event.status "")) event s
unfolding process_provider_webhook
process_provider_webhook_known lower i prov ext event s e = rw (e, process_provider_webhook) refl

set_status-find :
    (id : ℕ) (p : Payment) (target : PaymentStatus) (t : Table Payment)
    → find id t ≡ some p
    → find id (update_where (at_payment id) (set_status target) t)
      ≡ some (record p { status = target })
set_status-find id p target t here =
    ground (arith, here, find-update_where (at_payment id) (set_status target) id t)

-- The reference of the payment that an event is about.
abbrev pub payment_reference : Event → Option String
payment_reference event =
    non_empty (or_else event.payment_id (or_else event.merchant_reference event.reference))

-- A webhook with a new event and a known status gives the payment that it means that status, whatever
-- the payment's own status is: one that is paid becomes pending or failed.
process_provider_webhook_overwrites :
    (lower : String → String) (i id : ℕ) (prov ext ref : String) (event : Event) (s : Webhooks)
    (p : Payment) (target : PaymentStatus)
    → external_id event ≡ some ext
    → find_where (is_event prov ext) s.events ≡ none
    → payment_reference event ≡ some ref
    → find_where (is_meant ref) s.books.payments ≡ some (id, p)
    → find id s.books.payments ≡ some p
    → target_of (lower (or_text event.status "")) ≡ some target
    → let (r, s') = process_provider_webhook lower i prov event s in
      (r ≡ ok (updated id (status_text target)))
      × (find id s'.books.payments ≡ some (record p { status = target }))
unfolding record_event apply_reference apply_event
process_provider_webhook_overwrites lower i id prov ext ref event s p target e new about meant here
      is =
    rw (process_provider_webhook_known lower i prov ext event s e) (
      rw (new, about, meant, is, record_event, apply_reference, apply_event)
        (refl, set_status-find id p target s.books.payments here))

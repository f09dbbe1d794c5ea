-- ===== src/Messaging/Outbox/Laws.antt =====
-- What is enqueued, and that a delivery settles what it claims.
use text.Mathlib.Text.{◌==◌ as str_eq}
use thuso_wechat_ls.Base.{
  is_ok, false, ==_refl, update_where-Settled, update_where-Settled_self, ℕ, ◌≡◌, refl, Option,
  String, arith, update_where, Settled, claim-for_each-Settled, claim, Result, ok, err, Bool-cases,
  inl, inr,
}
use thuso_wechat_ls.Messaging.Accounts.{Directory, OutboundAccount, resolve_outbound_account}
use thuso_wechat_ls.Messaging.Outbox.{
  Mail, Payload, Call, claim_messages, is_due, start, mark_sent, put_back, receive, at_id,
  is_processing, settle, send, deliver_once, record_outbound_receipt, or_given, insert_message,
  enqueue_resolved, enqueue_channel,
}

enqueue_resolved_refused :
    (now id : ℕ) (channel recipient ty : String) (load : Payload) (trace : Option String)
    (r : Result OutboundAccount) (s : Mail)
    → let x = enqueue_resolved now id channel recipient ty load trace r s in
      (is_ok x.0 ≡ false) × (x.1 ≡ s)
unfolding enqueue_resolved insert_message
enqueue_resolved_refused now id channel recipient ty load trace (err k m) s = (refl, refl)
enqueue_resolved_refused now id channel recipient ty load trace (ok o) s = (refl, refl)

-- Nothing is enqueued, with whatever arguments: the call raises, and the tables stay as they are.
pub enqueue_channel_refused :
    (d : Directory) (now id : ℕ) (channel recipient ty : String) (load : Payload)
    (key trace : Option String) (s : Mail)
    → let r = enqueue_channel d now id channel recipient ty load key trace s in
      (is_ok r.0 ≡ false) × (r.1 ≡ s)
unfolding enqueue_channel
enqueue_channel_refused d now id channel recipient ty load key trace s =
    elim (Bool-cases (str_eq channel "whatsapp")) [
      | inl whatsapp ↦ rw whatsapp (
          enqueue_resolved_refused now id channel recipient ty load trace
            (resolve_outbound_account d recipient (or_given key load.account_key)) s)
      | inr other ↦ rw other (unfold insert_message in (refl, refl))
    ]

module _ (name operator : String) (transport : Call → Result (Option String)) where
  settle_keeps :
      (now k id : ℕ) (r : Result (Option String)) (s : Mail)
      → Settled is_processing k s.messages
      → Settled is_processing k (settle name operator transport now id r s).messages
  unfolding record_outbound_receipt
  settle_keeps now k id (ok x) s h =
      update_where-Settled is_processing (at_id id) (receive "sent" x) k
        (update_where (at_id id) (mark_sent x) s.messages) (λ m e. e)
        (update_where-Settled is_processing (at_id id) (mark_sent x) k s.messages (λ m e. refl) h)
  settle_keeps now k id (err c m) s h =
      update_where-Settled is_processing (at_id id) (put_back now m) k s.messages
        (λ m e. ground arith) h

  settle_self :
      (now id : ℕ) (r : Result (Option String)) (s : Mail)
      → Settled is_processing id (settle name operator transport now id r s).messages
  unfolding record_outbound_receipt
  settle_self now id (ok x) s =
      update_where-Settled is_processing (at_id id) (receive "sent" x) id
        (update_where (at_id id) (mark_sent x) s.messages) (λ m e. e)
        (update_where-Settled_self is_processing (at_id id) (mark_sent x) id s.messages (λ m. refl)
          (λ m. ==_refl id))
  settle_self now id (err c m) s =
      update_where-Settled_self is_processing (at_id id) (put_back now m) id s.messages
        (λ m. ground arith) (λ m. ==_refl id)

  -- A delivery leaves no message in processing, whichever calls of the transport fail, if there was
  -- none before.
  deliver_once_settles :
      (now limit : ℕ) (s : Mail)
      → ((k : ℕ) → Settled is_processing k s.messages)
      → (k : ℕ)
      → Settled is_processing k (deliver_once name operator transport now limit s).1.messages
  unfolding deliver_once claim_messages
  deliver_once_settles now limit s h k =
      claim-for_each-Settled (λ t. t.messages) is_processing (is_due now) start
        (λ id m. settle name operator transport now id (send name operator transport m))
        (λ k j m. settle_keeps now k j (send name operator transport m))
        (λ j m. settle_self now j (send name operator transport m)) limit k s.messages
        (record s { messages = (claim (is_due now) start limit s.messages).1 }) refl (h k)

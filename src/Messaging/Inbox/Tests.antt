-- ===== src/Messaging/Inbox/Tests.antt =====
-- Runs of the inbox.
use thuso_wechat_ls.Base.{
  refl, ℕ, some, [], ◌∷◌, ◌==◌, arith, if◌then◌else◌, find, update_where, Settled, Result, ok, err,
  value_error,
}
use thuso_wechat_ls.Messaging.Inbox.{
  InboxEvent, Inbox, new_event, recover_stale_inbox_events, drain_once, is_processing,
}
use thuso_wechat_ls.Messaging.Inbox.Laws.{Drained, drain_once_settles}

abbrev waiting : InboxEvent
waiting = new_event 10 "meta" (some "k") "wamid.1" "message" "{}"

abbrev inbox : Inbox
inbox = (4, waiting) ∷ (5, record waiting { external_event_id = "wamid.2" }) ∷ []

-- A handler that succeeds on the first event and fails on the second.
abbrev handle : ℕ → InboxEvent → Result (Unit {0})
handle id e = if id == 4 then ok tt else err value_error "unknown command"

none_processing :
    (k : ℕ) → Settled (λ e. is_processing e.status) k (recover_stale_inbox_events 20 300 inbox).1
unfolding recover_stale_inbox_events update_where find
none_processing k e found = ground arith

drain_once_settles_example : Drained 5 (drain_once handle 20 10 inbox)
drain_once_settles_example =
    drain_once_settles handle 20 10 inbox none_processing (refl, (refl, tt)) 5

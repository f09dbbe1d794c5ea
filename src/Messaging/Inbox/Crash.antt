-- ===== src/Messaging/Inbox/Crash.antt =====
-- Crashes of the worker.
use thuso_wechat_ls.Base.{ℕ, zero, suc, ◌+◌}
use thuso_wechat_ls.Messaging.Inbox.{Inbox, claim_inbox_events, recover_stale_inbox_events}

-- A worker claims what is there and dies; once the lease is over another worker takes it back.
abbrev pub crash : ℕ → Inbox → Inbox
crash now t = (recover_stale_inbox_events (now + 301) 300 (claim_inbox_events now 1 t).1).1

-- One crash after the other.
abbrev pub crashes : ℕ → ℕ → Inbox → Inbox
crashes zero now t = t
crashes (suc n) now t = crashes n (now + 301) (crash now t)

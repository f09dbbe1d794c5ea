-- ===== src/Messaging/Accounts/Tests.antt =====
-- Runs of the account routing.
use thuso_wechat_ls.Base.{ℕ, refl, true, none, some, [], ◌∷◌, String, find_where}
use thuso_wechat_ls.Messaging.Accounts.{
  AccountStatus, WaAccount, Identity, Directory, OutboundAccount, resolve_outbound_account,
}
use thuso_wechat_ls.Messaging.Accounts.Laws.{MaySend, resolve_outbound_account-MaySend}

abbrev account : String → WaAccount
account key = record {
  account_key = key;
  transport = "meta";
  status = AccountStatus.connected;
  revoked_at = none;
}

abbrev identity : ℕ → Identity
identity id = record {
  channel = "whatsapp";
  phone = "+26650000000";
  is_active = true;
  wa_account_id = some id;
}

abbrev directory : Directory
directory = record {
  accounts = (2, account "shop") ∷ (3, account "food") ∷ [];
  identities = identity 2 ∷ [];
  operator_account_key = "";
}

abbrev shared : Directory
shared = record directory { identities = identity 2 ∷ identity 3 ∷ [] }

abbrev shop : OutboundAccount
shop = record { account_key = "shop"; account_id = 2; transport = "meta" }

resolve_outbound_account-MaySend_example : MaySend directory (some "shop") shop
unfolding resolve_outbound_account find_where
resolve_outbound_account-MaySend_example =
    resolve_outbound_account-MaySend directory "26650000000" (some "shop") {o = shop} refl

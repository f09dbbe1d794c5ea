-- ===== src/Finance/Reconciliation/Tests.antt =====
-- Runs of the reconciliation.
use thuso_wechat_ls.Base.{refl, [], put, find_where}
use thuso_wechat_ls.Base.Int.{pos, ◌*ℤ◌}
use thuso_wechat_ls.Money.{money, quantize, cents}
use thuso_wechat_ls.Finance.Books.{Books, PaymentStatus}
use thuso_wechat_ls.Finance.Samples.{with_payment}
use thuso_wechat_ls.Finance.Reconciliation.{Recon, match_item, write_item, upsert_item}
use thuso_wechat_ls.Finance.Reconciliation.Laws.{IsMatch, match_item_sound}

abbrev recon_of : Books → Recon
recon_of books = record {
  books = books;
  batches = [];
  items = [];
  exceptions = [];
  destinations = [];
  attempts = [];
}

match_item_sound_example :
    IsMatch 2 "r"
      (money (cents (pos 2500)))
      "LSL"
      (recon_of (with_payment PaymentStatus.paid 2500))
      (match_item 1 2 "r"
        (cents (pos 2500))
        "LSL"
        "paid"
        (recon_of (with_payment PaymentStatus.paid 2500))).0
unfolding match_item write_item upsert_item find_where put money quantize ◌*ℤ◌
match_item_sound_example =
    match_item_sound 1 2 "r" (cents (pos 2500)) "LSL" "paid"
      (recon_of (with_payment PaymentStatus.paid 2500)) refl

-- ===== src/Finance/Ledger/Tests.antt =====
-- Runs of the ledger.
use thuso_wechat_ls.Base.{suc, ◌≡◌, [], ◌∷◌, ◌==◌, if◌then◌else◌}
use thuso_wechat_ls.Base.Int.{pos}
use thuso_wechat_ls.Finance.Books.{Books, Entry, credit, debit}
use thuso_wechat_ls.Finance.Samples.{empty_books}
use thuso_wechat_ls.Finance.Ledger.{post_entry, contains_key, sum_entries, signed}
use thuso_wechat_ls.Finance.Ledger.Laws.{balance-post_entry}

abbrev one_entry : Entry
one_entry = record {
  account_id = 2;
  reference = "a";
  direction = credit;
  amount = 900;
  currency = "LSL";
}

abbrev posted : Books
posted = record empty_books { entries = one_entry ∷ [] }

balance-post_entry_example :
    let e : Entry = record {
      account_id = 2;
      reference = "b";
      direction = debit;
      amount = suc 299;
      currency = "LSL";
    } in
    sum_entries 2 (post_entry 2 "b" debit (pos (suc 299)) "LSL" posted).1.entries ≡ (
      if contains_key e posted.entries
      then sum_entries 2 posted.entries
      else if 2 == 2
      then signed debit (suc 299) (sum_entries 2 posted.entries)
      else sum_entries 2 posted.entries)
balance-post_entry_example = balance-post_entry 2 2 "b" debit 299 "LSL" posted

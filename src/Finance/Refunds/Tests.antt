-- ===== src/Finance/Refunds/Tests.antt =====
-- Runs of the refund functions.
use thuso_wechat_ls.Base.{[], ◌∷◌, arith, find}
use thuso_wechat_ls.Finance.Books.{Books, PaymentStatus, Refund}
use thuso_wechat_ls.Finance.Samples.{payment_of, with_payment}
use thuso_wechat_ls.Finance.Refunds.{complete_refund, new_refund}
use thuso_wechat_ls.Finance.Refunds.Laws.{IsBalanced, complete_refund-IsBalanced}

abbrev paid_books : Books
paid_books = with_payment PaymentStatus.paid 2500

abbrev requested : Refund
requested = new_refund 7 5 (payment_of PaymentStatus.paid 2500) 1000 "late"

abbrev with_refund : Books
with_refund = record paid_books { refunds = (3, requested) ∷ [] }

-- The books of a payment whose refund is only requested are balanced.
with_refund-IsBalanced : IsBalanced with_refund
unfolding find
with_refund-IsBalanced = record { at_payment = λ k p e. ground arith }

complete_refund-IsBalanced_example : IsBalanced (complete_refund 3 "ref" with_refund).1
complete_refund-IsBalanced_example =
    complete_refund-IsBalanced 3 "ref" with_refund (with_refund-IsBalanced)

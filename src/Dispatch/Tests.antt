-- ===== src/Dispatch/Tests.antt =====
-- Runs of the dispatch.
use thuso_wechat_ls.Base.{
  ℕ, ◌≡◌, refl, false, ◌&&◌, none, some, List, [], ◌∷◌, ◌==◌, is_ok, find, Settled,
}
use thuso_wechat_ls.Delivery.{RequestStatus}
use thuso_wechat_ls.Dispatch.{
  Offer, OfferStatus, Offers, is_pending, accept_offer, accept_found, accept_request,
}
use thuso_wechat_ls.Dispatch.Laws.{IsGiven, accept_offer_exclusive}

abbrev offer_to : ℕ → Offer
offer_to provider_id = record {
  service_request_id = 5;
  provider_id = provider_id;
  status = OfferStatus.pending;
  expires_at = some 200;
  dispatch_wave = 1;
}

abbrev two_offers : Offers
two_offers = record {
  offers = (1, offer_to 8) ∷ (2, offer_to 9) ∷ [];
  requests =
      (5, record { status = RequestStatus.offered; accepted_provider_id = none; version = 2 }) ∷ [];
  attempts = [];
}

abbrev candidates : List (ℕ × ℕ)
candidates = (3, 8) ∷ (4, 10) ∷ (6, 11) ∷ (7, 12) ∷ []

accept_offer_exclusive_example :
    let s' = (accept_offer 100 1 8 two_offers).1 in
    IsGiven 5 8 s'
    × ((k : ℕ) → Settled (λ o. o.service_request_id == 5 && is_pending o.status) k s'.offers)
    × ((later j v : ℕ) (o : Offer)
        → find j s'.offers ≡ some o
        → o.service_request_id ≡ 5
        → is_ok (accept_offer later j v s').0 ≡ false)
unfolding accept_offer accept_found accept_request find
accept_offer_exclusive_example = accept_offer_exclusive 100 1 8 two_offers {r = 5} refl

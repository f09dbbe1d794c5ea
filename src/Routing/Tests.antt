-- ===== src/Routing/Tests.antt =====
-- Runs of the route choice.
use thuso_wechat_ls.Base.{ℕ, ◌≡◌, refl, true, false, none, List, [], ◌∷◌, String, AllOf, AnyOf}
use thuso_wechat_ls.Base.Int.{pos, ◌+ℤ◌, ◌*ℤ◌, ◌≤ℤ◌}
use thuso_wechat_ls.Money.{Decimal, cents, quantize_even, round_half_even}
use thuso_wechat_ls.Routing.{
  RouteCandidate, RouteDecision, rank, is_eligible, eligible, estimate_fee, at_most, insert_ranked,
  sort_ranked, rank_routes, choose_route,
}
use thuso_wechat_ls.Routing.Laws.{IsRoute, choose_route_best}

abbrev amount : Decimal
amount = cents (pos 10000)

abbrev route : String → ℕ → RouteCandidate
route provider priority = record {
  provider = provider;
  channel = "ussd";
  fee_fixed = cents (pos 150);
  fee_rate = record { coefficient = pos 15; places = 3 };
  priority = priority;
  healthy = true;
  available = true;
  supports_refund = true;
  supports_payout = false;
  max_amount = none;
}

abbrev candidates : List RouteCandidate
candidates =
    route "mpesa" 100 ∷ record (route "ecocash" 10) { healthy = false } ∷ route "cpay" 50 ∷ []

abbrev decision : RouteDecision
decision = record {
  provider = "cpay";
  channel = "ussd";
  estimated_fee = pos 300;
  score = pos 5300;
  fallback_providers = "mpesa" ∷ [];
  reason = "cpay/ussd selected by deterministic priority + estimated fee";
}

choose_route_best_example :
    AllOf (λ c. is_eligible amount c ≡ true → decision.score ≤ℤ (rank amount c).score) candidates
    × AnyOf (λ c. (is_eligible amount c ≡ true) × IsRoute decision (rank amount c)) candidates
unfolding choose_route rank_routes eligible is_eligible estimate_fee at_most insert_ranked
    sort_ranked quantize_even round_half_even ◌*ℤ◌ ◌+ℤ◌
choose_route_best_example = choose_route_best amount candidates {d = decision} refl

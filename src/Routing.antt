-- ===== src/Routing.antt =====
-- The choice of a payment route: app/services/payment_routing.py. Scores and fees are cents.
pub mod Laws
mod Tests
use Prim.Native.String.{compare as compare_text}
use Prim.Native.Nat.{Ordering}
use thuso_wechat_ls.Base.{
  ℕ, ◌+◌, ◌*◌, Bool, true, false, ◌&&◌, ◌||◌, not, Option, none, some, List, [], ◌∷◌, map, String,
  ◌<>◌, if◌then◌else◌, Result, ok, err, value_error,
}
use thuso_wechat_ls.Base.Int.{ℤ, pos, ltb_ℤ, ◌+ℤ◌}
use thuso_wechat_ls.Money.{Decimal, quantize_even, plus, product, exceeds}

pub record RouteCandidate : Type 0 where
  pub provider : String
  pub channel : String
  pub fee_fixed : Decimal
  pub fee_rate : Decimal
  pub priority : ℕ
  pub healthy : Bool
  pub available : Bool
  pub supports_refund : Bool
  pub supports_payout : Bool
  pub max_amount : Option Decimal

pub record RouteDecision : Type 0 where
  pub provider : String
  pub channel : String
  pub estimated_fee : ℤ
  pub score : ℤ
  pub fallback_providers : List String
  pub reason : String

-- `(c.fee_fixed + amount * c.fee_rate).quantize(Decimal('0.01'))`
unfoldable pub estimate_fee : Decimal → RouteCandidate → ℤ
estimate_fee amount c = quantize_even (plus c.fee_fixed (product amount c.fee_rate))

pub record Ranked : Type 0 where
  pub candidate : RouteCandidate
  pub fee : ℤ
  pub score : ℤ

abbrev pub over_maximum : Decimal → Option Decimal → Bool
over_maximum amount none = false
over_maximum amount (some m) = exceeds amount m

-- The negation of the test that skips a candidate.
unfoldable pub is_eligible : Decimal → RouteCandidate → Bool
is_eligible amount c = c.healthy && (c.available && not (over_maximum amount c.max_amount))

-- `Decimal(c.priority) + fee`
abbrev pub rank : Decimal → RouteCandidate → Ranked
rank amount c =
    let fee = estimate_fee amount c in
    record { candidate = c; fee = fee; score = pos (c.priority * 100) +ℤ fee }

-- The candidates that are not skipped, each with its fee and score.
unfoldable pub eligible : Decimal → List RouteCandidate → List Ranked
eligible amount [] = []
eligible amount (c ∷ cs) =
    let rest = eligible amount cs in if is_eligible amount c then rank amount c ∷ rest else rest

-- The key `(score, provider, channel)` of a does not come after that of b.
abbrev pub text_at_most : String → String → Bool → Bool
text_at_most a b next = elim (compare_text a b) [
  | Ordering.lt ↦ true
  | Ordering.eq ↦ next
  | Ordering.gt ↦ false
]

unfoldable pub at_most : Ranked → Ranked → Bool
at_most a b =
    ltb_ℤ a.score b.score
    || (not (ltb_ℤ b.score a.score)
        && text_at_most a.candidate.provider b.candidate.provider
            (text_at_most a.candidate.channel b.candidate.channel true))

-- `sorted(ranked,key=...)`, which keeps the order of equal keys.
unfoldable pub insert_ranked : Ranked → List Ranked → List Ranked
insert_ranked a [] = a ∷ []
insert_ranked a (b ∷ l) = if at_most a b then a ∷ b ∷ l else b ∷ insert_ranked a l

unfoldable pub sort_ranked : List Ranked → List Ranked
sort_ranked [] = []
sort_ranked (a ∷ l) = insert_ranked a (sort_ranked l)

pub rank_routes : Decimal → List RouteCandidate → List Ranked
rank_routes amount candidates = sort_ranked (eligible amount candidates)

abbrev pub decide : List Ranked → Result RouteDecision
decide [] = err value_error "no eligible payment route available"
decide (best ∷ rest) = ok (record {
  provider = best.candidate.provider;
  channel = best.candidate.channel;
  estimated_fee = best.fee;
  score = best.score;
  fallback_providers = map (λ x. x.candidate.provider) rest;
  reason =
      best.candidate.provider <> "/" <> best.candidate.channel
      <> " selected by deterministic priority + estimated fee";
})

pub choose_route : Decimal → List RouteCandidate → Result RouteDecision
choose_route amount candidates = decide (rank_routes amount candidates)

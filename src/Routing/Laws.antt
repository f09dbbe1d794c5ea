-- ===== src/Routing/Laws.antt =====
-- The ranking keeps exactly the eligible candidates, and the best of them is chosen.
use Prim.{⊥}
use thuso_wechat_ls.Base.{
  ◌≡◌, refl, ap, ◌≢◌, true, false, ◌⊎◌, inl, inr, List, [], ◌∷◌, arith, Bool-cases, Result, ok, err,
  value_error, AllOf, AnyOf,
}
use thuso_wechat_ls.Base.Int.{ℤ, ◌≤ℤ◌, pos_part, neg_part}
use thuso_wechat_ls.Money.{Decimal}
use thuso_wechat_ls.Routing.{
  RouteCandidate, RouteDecision, Ranked, rank, is_eligible, eligible, at_most, insert_ranked,
  sort_ranked, rank_routes, decide, choose_route,
}

-- Every candidate of the list costs at least this much.
abbrev pub Least : ℤ → List Ranked → Type 0
Least score = AllOf (λ b. score ≤ℤ b.score)

-- Each element costs at most what stands behind it.
abbrev pub InOrder : List Ranked → Type 0
InOrder [] = Unit
InOrder (a ∷ l) = Least a.score l × InOrder l

at_most_score : (a b : Ranked) → at_most a b ≡ true → a.score ≤ℤ b.score
unfolding at_most
at_most_score a b h = ground arith

at_most_other : (a b : Ranked) → at_most a b ≡ false → b.score ≤ℤ a.score
unfolding at_most
at_most_other a b h = ground arith

Least-weaken : (x y : ℤ) (l : List Ranked) → x ≤ℤ y → Least y l → Least x l
Least-weaken x y [] le h = tt
Least-weaken x y (b ∷ l) le h = (omega (arith, le, h.0), Least-weaken x y l le h.1)

insert_ranked-Least :
    (x : ℤ) (a : Ranked) (l : List Ranked) → x ≤ℤ a.score → Least x l → Least x (insert_ranked a l)
unfolding insert_ranked
insert_ranked-Least x a [] le h = (le, tt)
insert_ranked-Least x a (b ∷ l) le h = elim (Bool-cases (at_most a b)) [
  | inl e ↦ rw e (le, h)
  | inr e ↦ rw e (h.0, insert_ranked-Least x a l le h.1)
]

insert_ranked-InOrder : (a : Ranked) (l : List Ranked) → InOrder l → InOrder (insert_ranked a l)
unfolding insert_ranked
insert_ranked-InOrder a [] h = (tt, tt)
insert_ranked-InOrder a (b ∷ l) h = elim (Bool-cases (at_most a b)) [
  | inl e ↦ let le = at_most_score a b e in rw e ((le, Least-weaken a.score b.score l le h.0), h)
  | inr e ↦
      rw e
        (insert_ranked-Least b.score a l (at_most_other a b e) h.0, insert_ranked-InOrder a l h.1)
]

-- The ranking is in the order of the scores.
pub sort_ranked-InOrder : (l : List Ranked) → InOrder (sort_ranked l)
unfolding sort_ranked
sort_ranked-InOrder [] = tt
sort_ranked-InOrder (a ∷ l) = insert_ranked-InOrder a (sort_ranked l) (sort_ranked-InOrder l)

-- What holds of every ranked candidate holds of every candidate of the list, and one that some
-- ranked candidate has, some candidate of the list has.
module _ (P : Ranked → Type 0) where
  insert_ranked-AllOf :
      (a : Ranked) (l : List Ranked) → AllOf P (insert_ranked a l) → P a × AllOf P l
  unfolding insert_ranked
  insert_ranked-AllOf a [] h = h
  insert_ranked-AllOf a (b ∷ l) h = elim (Bool-cases (at_most a b)) [
    | inl e ↦ rw e at h
    | inr e ↦
        let r : P b × AllOf P (insert_ranked a l) = rw e at h in
        let later = insert_ranked-AllOf a l r.1 in (later.0, (r.0, later.1))
  ]

  sort_ranked-AllOf : (l : List Ranked) → AllOf P (sort_ranked l) → AllOf P l
  unfolding sort_ranked
  sort_ranked-AllOf [] h = tt
  sort_ranked-AllOf (a ∷ l) h =
      let r = insert_ranked-AllOf a (sort_ranked l) h in (r.0, sort_ranked-AllOf l r.1)

  insert_ranked-AnyOf :
      (a : Ranked) (l : List Ranked) → AnyOf P (insert_ranked a l) → P a ⊎ AnyOf P l
  unfolding insert_ranked
  insert_ranked-AnyOf a [] h = h
  insert_ranked-AnyOf a (b ∷ l) h = elim (Bool-cases (at_most a b)) [
    | inl e ↦ rw e at h
    | inr e ↦
        let r : P b ⊎ AnyOf P (insert_ranked a l) = rw e at h in
        elim r [
          | inl here ↦ inr (inl here)
          | inr there ↦ elim (insert_ranked-AnyOf a l there) [
            | inl first ↦ inl first
            | inr later ↦ inr (inr later)
          ]
        ]
  ]

  sort_ranked-AnyOf : (l : List Ranked) → AnyOf P (sort_ranked l) → AnyOf P l
  unfolding sort_ranked
  sort_ranked-AnyOf [] h = h
  sort_ranked-AnyOf (a ∷ l) h = elim (insert_ranked-AnyOf a (sort_ranked l) h) [
    | inl first ↦ inl first
    | inr later ↦ inr (sort_ranked-AnyOf l later)
  ]

  eligible-AllOf :
      (amount : Decimal) (cs : List RouteCandidate)
      → AllOf P (eligible amount cs)
      → AllOf (λ c. is_eligible amount c ≡ true → P (rank amount c)) cs
  unfolding eligible
  eligible-AllOf amount [] h = tt
  eligible-AllOf amount (c ∷ cs) h = elim (Bool-cases (is_eligible amount c)) [
    | inl e ↦
        let r : P (rank amount c) × AllOf P (eligible amount cs) = rw e at h in
        (λ _. r.0, eligible-AllOf amount cs r.1)
    | inr e ↦ (λ f. absurd (cc (e, f)), eligible-AllOf amount cs (rw e at h))
  ]

  eligible-AnyOf :
      (amount : Decimal) (cs : List RouteCandidate)
      → AnyOf P (eligible amount cs)
      → AnyOf (λ c. (is_eligible amount c ≡ true) × P (rank amount c)) cs
  unfolding eligible
  eligible-AnyOf amount [] h = h
  eligible-AnyOf amount (c ∷ cs) h = elim (Bool-cases (is_eligible amount c)) [
    | inl e ↦
        let r : P (rank amount c) ⊎ AnyOf P (eligible amount cs) = rw e at h in
        elim r [ inl here ↦ inl (e, here) | inr there ↦ inr (eligible-AnyOf amount cs there) ]
    | inr e ↦ inr (eligible-AnyOf amount cs (rw e at h))
  ]

-- The route is the one of this ranked candidate.
abbrev pub IsRoute : RouteDecision → Ranked → Type 0
IsRoute d r =
    (d.provider ≡ r.candidate.provider)
    × (d.channel ≡ r.candidate.channel)
    × (d.estimated_fee ≡ r.fee)
    × (d.score ≡ r.score)

decide_best :
    (l : List Ranked) {d : RouteDecision}
    → InOrder l
    → decide l ≡ ok d
    → Least d.score l × AnyOf (IsRoute d) l
decide_best [] order h = absurd (cc h)
decide_best (best ∷ rest) {d} order h =
    let same : d.score ≡ best.score = cc h in
    (
      (
        omega (arith, ap pos_part same, ap neg_part same),
        Least-weaken d.score best.score rest (omega (arith, ap pos_part same, ap neg_part same))
            order.0,
      ),
      inl (cc h, cc h, cc h, same),
    )

-- A route that is chosen is one of the eligible candidates, with its fee and score, and no eligible
-- candidate has a lower score.
pub choose_route_best :
    (amount : Decimal) (cs : List RouteCandidate) {d : RouteDecision}
    → choose_route amount cs ≡ ok d
    → AllOf (λ c. is_eligible amount c ≡ true → d.score ≤ℤ (rank amount c).score) cs
      × AnyOf (λ c. (is_eligible amount c ≡ true) × IsRoute d (rank amount c)) cs
unfolding choose_route rank_routes
choose_route_best amount cs {d} h =
    let l = eligible amount cs in
    let best = decide_best (sort_ranked l) (sort_ranked-InOrder l) h in
    (
      eligible-AllOf (λ b. d.score ≤ℤ b.score) amount cs
          (sort_ranked-AllOf (λ b. d.score ≤ℤ b.score) l best.0),
      eligible-AnyOf (IsRoute d) amount cs (sort_ranked-AnyOf (IsRoute d) l best.1),
    )

some_eligible :
    (amount : Decimal) (cs : List RouteCandidate)
    → AnyOf (λ c. (is_eligible amount c ≡ true) × Unit {0}) cs
    → AnyOf (λ c. is_eligible amount c ≡ true) cs
some_eligible amount [] h = h
some_eligible amount (c ∷ cs) (inl here) = inl here.0
some_eligible amount (c ∷ cs) (inr there) = inr (some_eligible amount cs there)

-- The two outcomes, by what the ranking is.
abbrev pub Outcome : Decimal → List RouteCandidate → Result RouteDecision → Type 0
Outcome amount cs r =
    (AllOf (λ c. is_eligible amount c ≢ true) cs
      × (r ≡ err value_error "no eligible payment route available"))
    ⊎ (AnyOf (λ c. is_eligible amount c ≡ true) cs × ((d : RouteDecision) × (r ≡ ok d)))

decide-Outcome :
    (amount : Decimal) (cs : List RouteCandidate) (l : List Ranked)
    → sort_ranked (eligible amount cs) ≡ l
    → Outcome amount cs (decide l)
decide-Outcome amount cs [] e = inl (
  eligible-AllOf (λ _. ⊥) amount cs (sort_ranked-AllOf (λ _. ⊥) (eligible amount cs) (rw e tt)),
  refl,
)
decide-Outcome amount cs (best ∷ rest) e = inr (
  some_eligible amount cs (
      eligible-AnyOf (λ _. Unit {0}) amount cs
        (sort_ranked-AnyOf (λ _. Unit {0}) (eligible amount cs) (rw e (inl tt)))),
  (_, refl),
)

-- Either no candidate is eligible and the error says so, or some candidate is and a route comes back.
choose_route_found :
    (amount : Decimal) (cs : List RouteCandidate) → Outcome amount cs (choose_route amount cs)
unfolding choose_route rank_routes
choose_route_found amount cs = decide-Outcome amount cs (sort_ranked (eligible amount cs)) refl

-- ===== src/Dispatch/Laws.antt =====
-- A request goes to one provider.
use mathlib.Core.Path.{subst}
use thuso_wechat_ls.Base.{
  ℕ, ◌≡◌, refl, false, ◌&&◌, Option, none, some, ◌==◌, arith, Bool-cases, inl, inr, find,
  find-update_where, update_where, ok, is_ok, Settled,
}
use thuso_wechat_ls.Delivery.{Request, RequestStatus, is_searching_or_offered}
use thuso_wechat_ls.Dispatch.{
  Offer, OfferStatus, Offers, is_pending, is_over, set_status, offer_at, is_rival, request_at,
  give_to, accept_row, accept_request, accept_found, accept_offer,
}

-- The request is the provider's.
abbrev pub IsGiven : ℕ → ℕ → Offers → Type 0
IsGiven request_id provider_id s =
    (r : Request) × (find request_id s.requests ≡ some r)
    × (r.status ≡ RequestStatus.accepted)
    × (r.accepted_provider_id ≡ some provider_id)

accept_row-IsGiven :
    (i p r : ℕ) (s : Offers) (q : Request)
    → find r s.requests ≡ some q
    → IsGiven r p (accept_row i p r s)
unfolding accept_row
accept_row-IsGiven i p r s q found = (
  give_to p q,
  ground (arith, found, find-update_where (request_at r) (give_to p) r s.requests),
  refl,
  refl,
)

-- No offer of the request is pending.
accept_row-Settled :
    (i p r k : ℕ) (s : Offers)
    → Settled (λ o. o.service_request_id == r && is_pending o.status) k (accept_row i p r s).offers
unfolding accept_row
accept_row-Settled i p r k s o found =
    let t = update_where (offer_at i) (set_status OfferStatus.accepted) s.offers in
    ground (
      arith,
      found,
      find-update_where (is_rival r i) (set_status OfferStatus.rejected) k t,
      find-update_where (offer_at i) (set_status OfferStatus.accepted) k s.offers,
    )

-- What an acceptance that is answered by a request is.
abbrev pub Accepts : ℕ → ℕ → ℕ → Offers → Offers → Type 0
Accepts i p r s s' = (s' ≡ accept_row i p r s) × ((q : Request) × (find r s.requests ≡ some q))

accept_request-Accepts :
    (i p r : ℕ) (o : Option Request) (s : Offers) {id : ℕ}
    → find r s.requests ≡ o
    → (accept_request i p r o s).0 ≡ ok id
    → (r ≡ id) × Accepts i p r s (accept_request i p r o s).1
unfolding accept_request
accept_request-Accepts i p r none s e h = absurd (cc h)
accept_request-Accepts i p r (some q) s {id} e h =
    elim (Bool-cases (is_searching_or_offered q.status)) [
      | inl free ↦ rw (free, accept_request) (cc (rw (free, accept_request) at h), (refl, (q, e)))
      | inr other ↦ absurd (cc (rw (other, accept_request) at h))
    ]

accept_found-Accepts :
    (now i p : ℕ) (o : Option Offer) (s : Offers) {id : ℕ}
    → (accept_found now i p o s).0 ≡ ok id
    → Accepts i p id s (accept_found now i p o s).1
unfolding accept_found
accept_found-Accepts now i p none s h = absurd (cc h)
accept_found-Accepts now i p (some o) s {id} h = elim (Bool-cases (o.provider_id == p)) [
  | inr other ↦ absurd (cc (rw (other, accept_found) at h))
  | inl own ↦ elim (Bool-cases (is_pending o.status)) [
    | inr gone ↦ absurd (cc (rw (own, gone, accept_found) at h))
    | inl there ↦ elim (Bool-cases (is_over now o.expires_at)) [
      | inl late ↦ absurd (cc (rw (own, there, late, accept_found) at h))
      | inr early ↦
          let r = o.service_request_id in
          let done =
            accept_request-Accepts i p r (find r s.requests) s {id = id} refl
              (rw (own, there, early, accept_found) at h) in
          rw (own, there, early, accept_found)
            (subst (λ k. Accepts i p k s (accept_request i p r (find r s.requests) s).1) done.0
              done.1)
    ]
  ]
]

accept_request_closed :
    (j v r : ℕ) (s : Offers) (q : Request)
    → q.status ≡ RequestStatus.accepted
    → is_ok (accept_request j v r (some q) s).0 ≡ false
unfolding accept_request
accept_request_closed j v r s q e = ground (arith, e)

accept_found_closed :
    (now j v r : ℕ) (o : Option Offer) (s : Offers)
    → ((x : Offer) → o ≡ some x → x.service_request_id ≡ r)
    → (q : Request) → find r s.requests ≡ some q
    → q.status ≡ RequestStatus.accepted
    → is_ok (accept_found now j v o s).0 ≡ false
unfolding accept_found
accept_found_closed now j v r none s same q found e = refl
accept_found_closed now j v r (some o) s same q found e =
    let closed = accept_request_closed j v r s q e in
    elim (Bool-cases (o.provider_id == v)) [
      | inr other ↦ rw (other, accept_found) refl
      | inl own ↦ elim (Bool-cases (is_pending o.status)) [
        | inr gone ↦ rw (own, gone, accept_found) refl
        | inl there ↦ elim (Bool-cases (is_over now o.expires_at)) [
          | inl late ↦ rw (own, there, late, accept_found) refl
          | inr early ↦ rw (own, there, early, accept_found, same o refl, found) closed
        ]
      ]
    ]

-- Once an offer is accepted, the request that comes back is the provider's, none of its offers is
-- pending any more, and no offer of it can be accepted after that, by anyone at any time.
pub accept_offer_exclusive :
    (now i p : ℕ) (s : Offers) {r : ℕ}
    → (accept_offer now i p s).0 ≡ ok r
    → let s' = (accept_offer now i p s).1 in
      IsGiven r p s'
      × ((k : ℕ) → Settled (λ o. o.service_request_id == r && is_pending o.status) k s'.offers)
      × ((later j v : ℕ) (o : Offer)
          → find j s'.offers ≡ some o
          → o.service_request_id ≡ r
          → is_ok (accept_offer later j v s').0 ≡ false)
unfolding accept_offer
accept_offer_exclusive now i p s {r} h =
    let (same, (q, found)) = accept_found-Accepts now i p (find i s.offers) s {id = r} h in
    let given = accept_row-IsGiven i p r s q found in
    rw same (
      given,
      λ k. accept_row-Settled i p r k s,
      λ later j v o there is.
          accept_found_closed later j v r (find j (accept_row i p r s).offers) (accept_row i p r s)
            (λ x e. ground (arith, e, there, is)) given.0 given.1 given.2,
    )

-- ===== src/Dispatch.antt =====
-- Offers of a request to providers: `accept_offer` of app/services/execution.py, and `dispatch_wave`,
-- `expire_offers` and `reassign_if_needed` of app/services/dispatch.py. The ranking of the candidates,
-- which is computed on floating-point scores and geographic distances, is an argument: the providers
-- in their order, each with the identifier that its offer would get. The score's column is left out.
pub mod Laws
mod Tests
pub mod Waves
use thuso_wechat_ls.Base.{
  ℕ, ◌+◌, max, Bool, true, false, ◌&&◌, ◌||◌, not, Option, none, some, List, [], ◌∷◌, ◌++◌, ◌==◌,
  leb, ltb, if◌then◌else◌, length, is_some, null, Table, find, find_where, put, update_where,
  select_where, Exec, Result, ok, err, value_error,
}
use thuso_wechat_ls.Delivery.{Request, RequestStatus, is_searching_or_offered}

pub data OfferStatus : Type 0 where
  pending accepted rejected expired : OfferStatus

pub record Offer : Type 0 where
  pub service_request_id : ℕ
  pub provider_id : ℕ
  pub status : OfferStatus
  pub expires_at : Option ℕ
  pub dispatch_wave : ℕ

pub record Attempt : Type 0 where
  pub service_request_id : ℕ
  pub wave : ℕ
  pub candidate_count : ℕ
  pub offered_count : ℕ

pub record Offers : Type 0 where
  pub offers : Table Offer
  pub requests : Table Request
  pub attempts : List Attempt

abbrev pub is_pending : OfferStatus → Bool
is_pending OfferStatus.pending = true
is_pending _ = false

-- `expiry and expiry <= now`
abbrev pub is_over : ℕ → Option ℕ → Bool
is_over now none = false
is_over now (some t) = leb t now

abbrev pub set_status : OfferStatus → Offer → Offer
set_status status o = record o { status = status }

abbrev pub offer_at : ℕ → ℕ → Offer → Bool
offer_at offer_id k _ = k == offer_id

-- `service_request_id=:rid and id<>:oid and status='pending'`
abbrev pub is_rival : ℕ → ℕ → ℕ → Offer → Bool
is_rival request_id offer_id k o =
    o.service_request_id == request_id && (not (k == offer_id) && is_pending o.status)

abbrev pub request_at : ℕ → ℕ → Request → Bool
request_at request_id k _ = k == request_id

abbrev pub give_to : ℕ → Request → Request
give_to provider_id r = record r {
  status = RequestStatus.accepted;
  accepted_provider_id = some provider_id;
  version = r.version + 1;
}

-- The three updates of an acceptance.
unfoldable pub accept_row : (offer_id provider_id request_id : ℕ) → Offers → Offers
accept_row offer_id provider_id request_id s = record s {
  offers =
      update_where (is_rival request_id offer_id) (set_status OfferStatus.rejected)
        (update_where (offer_at offer_id) (set_status OfferStatus.accepted) s.offers);
  requests = update_where (request_at request_id) (give_to provider_id) s.requests;
}

-- The request must still look for a provider.
unfoldable pub accept_request :
    (offer_id provider_id request_id : ℕ) → Option Request → Exec Offers ℕ
unfolding accept_row
accept_request offer_id provider_id request_id none s =
    (err value_error "request is no longer available", s)
accept_request offer_id provider_id request_id (some r) s =
    if is_searching_or_offered r.status
    then (ok request_id, accept_row offer_id provider_id request_id s)
    else (err value_error "request is no longer available", s)

unfoldable pub accept_found : (now offer_id provider_id : ℕ) → Option Offer → Exec Offers ℕ
unfolding accept_request
accept_found now offer_id provider_id none s = (err value_error "offer not found", s)
accept_found now offer_id provider_id (some o) s =
    if not (o.provider_id == provider_id)
    then (err value_error "offer not found", s)
    else if not (is_pending o.status)
    then (err value_error "offer is no longer available", s)
    else if is_over now o.expires_at
    then (
      err value_error "offer has expired",
      record s {
        offers = update_where (offer_at offer_id) (set_status OfferStatus.expired) s.offers;
      },
    )
    else accept_request offer_id provider_id o.service_request_id
        (find o.service_request_id s.requests) s

pub accept_offer : (now offer_id provider_id : ℕ) → Exec Offers ℕ
unfolding accept_found
accept_offer now offer_id provider_id s =
    accept_found now offer_id provider_id (find offer_id s.offers) s

-- `coalesce((select max(dispatch_wave)+1 ... where service_request_id=:rid),1)`
unfoldable pub next_wave : ℕ → Table Offer → ℕ
next_wave request_id [] = 1
next_wave request_id ((k, o) ∷ t) =
    let rest = next_wave request_id t in
    if o.service_request_id == request_id then max (o.dispatch_wave + 1) rest else rest

-- `unique(service_request_id,provider_id)`
abbrev pub is_offer_to : ℕ → ℕ → ℕ → Offer → Bool
is_offer_to request_id provider_id _ o =
    o.service_request_id == request_id && o.provider_id == provider_id

abbrev pub new_offer : (now request_id provider_id : ℕ) → Table Offer → Offer
new_offer now request_id provider_id t = record {
  service_request_id = request_id;
  provider_id = provider_id;
  status = OfferStatus.pending;
  expires_at = some (now + 120);
  dispatch_wave = next_wave request_id t;
}

-- The loop over the candidates, `n` offers after its start: a provider that has an offer of the
-- request is passed over, and the loop ends with the offer that fills the wave.
unfoldable pub offer_all :
    (now request_id wave_size n : ℕ) → List (ℕ × ℕ) → Table Offer → List Offer × Table Offer
unfolding next_wave
offer_all now request_id wave_size n [] t = ([], t)
offer_all now request_id wave_size n ((new_id, provider_id) ∷ cs) t =
    elim (find_where (is_offer_to request_id provider_id) t) [
      | some _ ↦ offer_all now request_id wave_size n cs t
      | none ↦
          let o = new_offer now request_id provider_id t in
          let t' = put new_id o t in
          elim (leb wave_size (n + 1)) [
            | true ↦ (o ∷ [], t')
            | false ↦ let r = offer_all now request_id wave_size (n + 1) cs t' in (o ∷ r.0, r.1)
          ]
    ]

abbrev pub mark_offered : Request → Request
mark_offered r = record r { status = RequestStatus.offered; version = r.version + 1 }

-- What follows the loop, where something was offered.
abbrev pub record_wave : (request_id candidate_count : ℕ) → List Offer → Offers → Offers
record_wave request_id candidate_count [] s = s
record_wave request_id candidate_count (o ∷ rest) s = record s {
  requests =
      update_where (λ k r. k == request_id && is_searching_or_offered r.status) mark_offered
        s.requests;
  attempts =
      s.attempts
      ++ (record {
        service_request_id = request_id;
        wave = o.dispatch_wave;
        candidate_count = candidate_count;
        offered_count = length (o ∷ rest);
      }
          ∷ []);
}

-- `has_place`: latitude and longitude are given.
unfoldable pub dispatch_wave :
    (now request_id wave_size : ℕ)
    → (has_place : Bool) → List (ℕ × ℕ)
    → Offers
    → List Offer × Offers
unfolding offer_all
dispatch_wave now request_id wave_size false candidates s = ([], s)
dispatch_wave now request_id wave_size true candidates s =
    let (selected, t) = offer_all now request_id wave_size 0 candidates s.offers in
    (selected, record_wave request_id (length candidates) selected (record s { offers = t }))

-- `request_id is None` expires the offers of every request.
abbrev pub may_expire : ℕ → Option ℕ → ℕ → Offer → Bool
may_expire now none _ o = is_pending o.status && is_over now o.expires_at
may_expire now (some request_id) _ o =
    o.service_request_id == request_id && (is_pending o.status && is_over now o.expires_at)

unfoldable pub expire_offers : (now : ℕ) → Option ℕ → Offers → ℕ × Offers
expire_offers now request_id s = (
  length (select_where (may_expire now request_id) s.offers),
  record s {
    offers = update_where (may_expire now request_id) (set_status OfferStatus.expired) s.offers;
  },
)

-- `status='pending' and expires_at>now()`; a null passes no test.
abbrev pub is_live : ℕ → ℕ → ℕ → Offer → Bool
is_live now request_id _ o =
    o.service_request_id == request_id
    && (is_pending o.status && (elim o.expires_at [ none ↦ false | some t ↦ ltb now t ]))

abbrev pub is_offered : RequestStatus → Bool
is_offered RequestStatus.offered = true
is_offered _ = false

abbrev pub search_again : Request → Request
search_again r = record r { status = RequestStatus.searching; version = r.version + 1 }

unfoldable pub reassign :
    (now request_id wave_size : ℕ)
    → (has_place : Bool) → List (ℕ × ℕ)
    → Option Request
    → Offers
    → List Offer × Offers
unfolding dispatch_wave
reassign now request_id wave_size has_place candidates none s = ([], s)
reassign now request_id wave_size has_place candidates (some r) s =
    if not (is_offered r.status) || not (null (select_where (is_live now request_id) s.offers))
    then ([], s)
    else dispatch_wave now request_id wave_size has_place candidates
        (record s { requests = update_where (request_at request_id) search_again s.requests })

pub reassign_if_needed :
    (now request_id wave_size : ℕ)
    → (has_place : Bool) → List (ℕ × ℕ)
    → Offers
    → List Offer × Offers
unfolding reassign expire_offers
reassign_if_needed now request_id wave_size has_place candidates s =
    let s' = (expire_offers now (some request_id) s).1 in
    reassign now request_id wave_size has_place candidates (find request_id s'.requests) s'

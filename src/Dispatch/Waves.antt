-- ===== src/Dispatch/Waves.antt =====
-- A wave of offers is bounded.
use thuso_wechat_ls.Base.{
  ℕ, ◌+◌, ◌≤◌, ◌<◌, ◌≡◌, refl, Bool, true, false, some, List, [], ◌∷◌, arith, leb, Bool-cases,
  Option-cases, inl, inr, length, AllOf, Table, find_where, put,
}
use thuso_wechat_ls.Dispatch.{
  Offer, OfferStatus, Offers, is_offer_to, new_offer, offer_all, dispatch_wave,
}

-- An offer of the request that stands for two minutes.
abbrev pub IsFresh : (now request_id : ℕ) → Offer → Type 0
IsFresh now request_id o =
    (o.service_request_id ≡ request_id)
    × (o.status ≡ OfferStatus.pending)
    × (o.expires_at ≡ some (now + 120))

offer_all_bounded :
    (now r w n : ℕ) (cs : List (ℕ × ℕ)) (t : Table Offer)
    → n < w
    → (n + length (offer_all now r w n cs t).0 ≤ w)
      × AllOf (IsFresh now r) (offer_all now r w n cs t).0
unfolding offer_all
offer_all_bounded now r w n [] t h = (omega (arith, h), tt)
offer_all_bounded now r w n ((id, p) ∷ cs) t h =
    elim (Option-cases (find_where (is_offer_to r p) t)) [
      | inr (x, there) ↦ rw (there, offer_all) (offer_all_bounded now r w n cs t h)
      | inl new ↦ elim (Bool-cases (leb w (n + 1))) [
        | inl full ↦ rw (new, full, offer_all) (omega (arith, h), ((refl, refl, refl), tt))
        | inr more ↦
            let rest =
              offer_all_bounded now r w (n + 1) cs (put id (new_offer now r p t) t)
                (ground (arith, more)) in
            rw (new, more, offer_all) (omega (arith, rest.0), ((refl, refl, refl), rest.1))
      ]
    ]

-- A wave holds at most `wave_size` offers, each of the request, pending and open for two minutes.
dispatch_wave_bounded :
    (now r w : ℕ) (has_place : Bool) (cs : List (ℕ × ℕ)) (s : Offers)
    → 0 < w
    → (length (dispatch_wave now r w has_place cs s).0 ≤ w)
      × AllOf (IsFresh now r) (dispatch_wave now r w has_place cs s).0
unfolding dispatch_wave
dispatch_wave_bounded now r w false cs s h = (omega (arith, h), tt)
dispatch_wave_bounded now r w true cs s h =
    let all = offer_all_bounded now r w 0 cs s.offers h in (omega (arith, all.0), all.1)

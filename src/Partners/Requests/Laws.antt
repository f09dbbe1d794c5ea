-- ===== src/Partners/Requests/Laws.antt =====
-- How often a call of a partner goes out, and with what it ends.
use thuso_wechat_ls.Base.{
  ℕ, zero, suc, ◌-◌, ◌≤◌, ◌<◌, ◌≡◌, refl, ap, ◌∙◌, inl, inr, Option, none, some, List, ◌∷◌, String,
  ◌<>◌, Bool-cases, leb, Exec, Result, ok, err, Kind, arith,
}
use thuso_wechat_ls.Base.Dict.{Dict}
use thuso_wechat_ls.Base.Json.{Python}
use thuso_wechat_ls.Partners.World.{
  World, Wire, AdapterContext, AdapterResponse, Call, request_call, Reply, unreachable, broken,
  answered, Certificate,
}
use thuso_wechat_ls.Partners.Auth.{transmit}
use thuso_wechat_ls.Partners.Requests.{
  attempts, round, is_transient, request, certificate_of, all_headers, conclude,
}

-- The call, so many times, before the earlier ones.
abbrev pub repeat : ℕ → Call → List Call → List Call
repeat zero c calls = calls
repeat (suc n) c calls = repeat n c (c ∷ calls)

status_of : Result AdapterResponse → ℕ
status_of (ok r) = r.status_code
status_of (err k m) = 0

-- The calls that a run has made, and a good status if it gives a response.
pub record IsBounded (most : ℕ) (c : Call) (before : Wire) (after : Result AdapterResponse × Wire)
    : Type 0 where
  pub tries : ℕ
  pub at_least_one : 1 ≤ tries
  pub at_most : tries ≤ most
  pub same_call : after.1.calls ≡ repeat tries c before.calls
  pub good_status : (r : AdapterResponse) → after.0 ≡ ok r → r.status_code < 400
  pub keeps_tokens : after.1.token_cache ≡ before.token_cache

-- One call, then this ending.
conclude-IsBounded :
    (w : World) (most : ℕ) (c : Call) (before : Wire) (status : ℕ) (headers : Dict String)
    (content : String)
    → 1 ≤ most
    → IsBounded most c before
        (conclude w status headers content (record before { calls = c ∷ before.calls }))
conclude-IsBounded w most c before status headers content h = elim (Bool-cases (leb 400 status)) [
  | inl bad ↦ rw bad (record {
    tries = 1;
    at_least_one = omega arith;
    at_most = h;
    same_call = refl;
    good_status = λ r e. absurd (cc e);
    keeps_tokens = refl;
  })
  | inr good ↦ rw good (record {
    tries = 1;
    at_least_one = omega arith;
    at_most = h;
    same_call = refl;
    good_status = λ r e. ground (arith, ap status_of e);
    keeps_tokens = refl;
  })
]

raise-IsBounded :
    (most : ℕ) (c : Call) (before : Wire) (k : Kind) (m : String)
    → 1 ≤ most
    → IsBounded most c before (err k m, record before { calls = c ∷ before.calls })
raise-IsBounded most c before k m h = record {
  tries = 1;
  at_least_one = omega arith;
  at_most = h;
  same_call = refl;
  good_status = λ r e. absurd (cc e);
  keeps_tokens = refl;
}

-- A pause and the rounds that are left.
again-IsBounded :
    (most : ℕ) (c : Call) (before paused : Wire) (after : Result AdapterResponse × Wire)
    → paused.calls ≡ c ∷ before.calls
    → paused.token_cache ≡ before.token_cache
    → IsBounded most c paused after
    → IsBounded (suc most) c before after
again-IsBounded most c before paused after sent kept b = record {
  tries = suc b.tries;
  at_least_one = omega arith;
  at_most = omega (arith, b.at_most);
  same_call = b.same_call ∙ ap (repeat b.tries c) sent;
  good_status = b.good_status;
  keeps_tokens = b.keeps_tokens ∙ kept;
}

module _ (py : Python) (w : World) where
  round-IsBounded_last :
      (attempt : ℕ) (c : Call) (s : Wire) (reply : Reply)
      → IsBounded 1 c s (round py w attempt none reply (record s { calls = c ∷ s.calls }))
  unfolding round
  round-IsBounded_last attempt c s unreachable = raise-IsBounded 1 c s _ _ (omega arith)
  round-IsBounded_last attempt c s (broken m) = raise-IsBounded 1 c s _ _ (omega arith)
  round-IsBounded_last attempt c s (answered status headers content) =
      conclude-IsBounded w 1 c s status headers content (omega arith)

  round-IsBounded :
      (attempt most : ℕ) (c : Call) (again : Exec Wire AdapterResponse) (s : Wire) (reply : Reply)
      → ((t : Wire) → IsBounded most c t (again t))
      → IsBounded
          (suc most)
          c
          s
          (round py w attempt (some again) reply (record s { calls = c ∷ s.calls }))
  unfolding round
  round-IsBounded attempt most c again s unreachable ih =
      again-IsBounded most c s _ _ refl refl (ih _)
  round-IsBounded attempt most c again s (broken m) ih =
      raise-IsBounded (suc most) c s _ _ (omega arith)
  round-IsBounded attempt most c again s (answered status headers content) ih =
      elim (Bool-cases (is_transient status)) [
        | inl yes_ ↦ rw yes_ (again-IsBounded most c s _ _ refl refl (ih _))
        | inr no_ ↦
            rw no_ (conclude-IsBounded w (suc most) c s status headers content (omega arith))
      ]

  attempts-IsBounded :
      (left : ℕ) (c : Call) (s : Wire) → IsBounded (suc left) c s (attempts py w left c s)
  unfolding attempts transmit
  attempts-IsBounded zero c s = round-IsBounded_last 2 c s (w.reply s.calls c)
  attempts-IsBounded (suc left) c s =
      round-IsBounded (1 - left) (suc left) c (attempts py w left c) s (w.reply s.calls c)
        (λ t. attempts-IsBounded left c t)

  -- A request goes out once, twice or three times, the same call each time, with the same
  -- idempotency key; no token of the cache changes; and a response that it gives has a status
  -- below 400. The certificate has to load.
  pub request-IsBounded :
      (ctx : AdapterContext) (method path : String) (body : Option String) (headers : Dict String)
      (content_type : String) (s : Wire) (certificate : Option Certificate)
      → certificate_of py w ctx ≡ ok certificate
      → IsBounded 3
          (request_call method
            (ctx.base_url <> path)
            body
            (all_headers py w ctx content_type headers)
            ctx.timeout_seconds
            certificate)
          s
          (request py w ctx method path body headers content_type s)
  unfolding request
  request-IsBounded ctx method path body headers content_type s certificate e =
      rw e (attempts-IsBounded 2 _ s)

-- ===== src/Partners/Auth/Laws.antt =====
-- The cache of OAuth2 tokens.
use text.Mathlib.TextEquality.{eq_iff}
use mathlib.Core.Path.{subst}
use thuso_wechat_ls.Base.{
  ℕ, ◌+◌, ◌≡◌, refl, inl, inr, true, Option, none, some, ◌∷◌, String, Bool-cases, leb, Result, ok,
  err, lift, ◌>>=◌, arith,
}
use thuso_wechat_ls.Base.Int.{ℤ, pos, ◌+ℤ◌, ltb_ℤ}
use thuso_wechat_ls.Base.Dict.{Dict, lookup, lookup-insert}
use thuso_wechat_ls.Base.Json.{
  Value, null, boolean, number, str, arr, obj, Python, get, get_field, truthy, str_of,
}
use thuso_wechat_ls.Partners.World.{
  World, Wire, AdapterContext, Call, Reply, unreachable, broken, answered,
}
use thuso_wechat_ls.Partners.Auth.{
  transmit, oauth_token, bearer, serves, lifetime, accept_token, token_reply, cache_token,
  cached_token,
}

module _ (py : Python) (w : World) (ctx : AdapterContext) (cache_key : String) where
  -- The token of these headers is in the cache, with the time at which it expires.
  pub record IsCached (headers : Dict String) (s : Wire) : Type 0 where
    pub token : String
    pub expires : ℤ
    pub stands : lookup cache_key s.token_cache ≡ some (token, expires)
    pub shown : headers ≡ bearer py w token

  -- Headers that come back are those of a cached token.
  abbrev Caches : Result (Dict String) × Wire → Type 0
  Caches (ok headers, s) = IsCached headers s
  Caches (err k m, s) = Unit

  cache_token-Caches :
      (token : String) (now : ℕ) (life : Result ℤ) (s : Wire)
      → Caches ((lift life >>= λ expires. cache_token py w cache_key token (pos now +ℤ expires)) s)
  cache_token-Caches token now (err k m) s = tt
  cache_token-Caches token now (ok expires) s = record {
    token = token;
    expires = pos now +ℤ expires;
    stands = ground (
      arith,
      lookup-insert cache_key cache_key (token, pos now +ℤ expires) s.token_cache,
      eq_iff cache_key cache_key,
    );
    shown = refl;
  }

  accept_token-Caches :
      (now : ℕ) (v : Option Value) (s : Wire) → Caches (accept_token py w cache_key now v s)
  accept_token-Caches now none s = tt
  accept_token-Caches now (some null) s = tt
  accept_token-Caches now (some (boolean b)) s = tt
  accept_token-Caches now (some (number n)) s = tt
  accept_token-Caches now (some (str t)) s = tt
  accept_token-Caches now (some (arr l)) s = tt
  accept_token-Caches now (some (obj fs)) s = elim (Bool-cases (truthy (get "access_token" fs))) [
    | inl e ↦ rw e (
        cache_token-Caches (str_of py (get "access_token" fs)) now
          (lifetime py w (get_field "expires_in" fs)) s)
    | inr e ↦ rw e tt
  ]

  token_reply-Caches :
      (now : ℕ) (r : Reply) (s : Wire) → Caches (token_reply py w cache_key now r s)
  token_reply-Caches now unreachable s = tt
  token_reply-Caches now (broken m) s = tt
  token_reply-Caches now (answered status headers content) s = elim (Bool-cases (leb 400 status)) [
    | inl e ↦ rw e tt
    | inr e ↦ rw e (accept_token-Caches now (py.loads content) s)
  ]

  transmit-Caches :
      (now : ℕ) (c : Call) (s : Wire) → Caches ((transmit w c >>= token_reply py w cache_key now) s)
  unfolding transmit
  transmit-Caches now c s =
      token_reply-Caches now (w.reply s.calls c) (record s { calls = c ∷ s.calls })

  serves-IsCached :
      (now : ℕ) (entry : Option (String × ℤ)) (s : Wire)
      → lookup cache_key s.token_cache ≡ entry
      → serves py w now entry ≡ true
      → IsCached (bearer py w (cached_token py w entry)) s
  serves-IsCached now none s stands h = absurd (cc h)
  serves-IsCached now (some (token, expires)) s stands h = record {
    token = token;
    expires = expires;
    stands = stands;
    shown = refl;
  }

  oauth_token-Caches : (now : ℕ) (s : Wire) → Caches (oauth_token py w ctx cache_key now s)
  unfolding oauth_token
  oauth_token-Caches now s = elim (Bool-cases (serves py w now (lookup cache_key s.token_cache))) [
    | inl e ↦ rw e (serves-IsCached now (lookup cache_key s.token_cache) s refl e)
    | inr e ↦ rw e (transmit-Caches now _ s)
  ]

  -- A token that came back stands in the cache, and up to 30 seconds before it expires it serves
  -- again, with the same headers and with no call.
  pub oauth_token_reused :
      (now : ℕ) (headers : Dict String) (s s' : Wire)
      → oauth_token py w ctx cache_key now s ≡ (ok headers, s')
      → (c : IsCached headers s') × ((later : ℕ)
          → ltb_ℤ (pos (later + 30)) c.expires ≡ true
          → oauth_token py w ctx cache_key later s' ≡ (ok headers, s'))
  unfolding oauth_token
  oauth_token_reused now headers s s' h =
      let c : IsCached headers s' = subst Caches h (oauth_token-Caches now s) in
      (c, λ later fresh. rw (c.stands, fresh, c.shown))

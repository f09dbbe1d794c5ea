-- ===== src/Partners/Endpoints/Laws.antt =====
-- What an accepted address guarantees.
use thuso_wechat_ls.Base.{
  ◌≡◌, ◌≢◌, refl, inl, inr, Bool, true, false, not, ◌&&◌, ◌||◌, Option, none, some, List, [], ◌∷◌,
  String, Bool-cases, AllOf, Result, ok, err, Kind, value_error, if◌then◌else◌, arith,
}
use thuso_wechat_ls.Base.Json.{Python}
use thuso_wechat_ls.Partners.World.{World, Url, Address}
use thuso_wechat_ls.Partners.Endpoints.{
  is_internal, any_internal, validate_endpoint, check_partner, is_production, port_of,
}
use text.Mathlib.Text.{◌==◌ as str_eq}
use text.Mathlib.TextEquality.{eq_iff}

any_internal-AllOf :
    (l : List Address) → any_internal l ≡ false → AllOf (λ a. is_internal a ≡ false) l
unfolding any_internal
any_internal-AllOf [] h = tt
any_internal-AllOf (a ∷ l) h = elim (Bool-cases (is_internal a)) [
  | inl e ↦ absurd (ground (arith, h, e))
  | inr e ↦ (e, any_internal-AllOf l (rw e at h))
]

-- The host of the address resolves, and only to public addresses.
pub record IsPublic (w : World) (u : Url) : Type 0 where
  pub addresses : List Address
  pub resolved : w.resolve u.host (port_of u) ≡ some addresses
  pub public : AllOf (λ a. is_internal a ≡ false) addresses

if_ok :
    (b : Bool) (k : Kind) (m : String) (r : Result (Unit {0}))
    → (if b then err k m else r) ≡ ok tt
    → (b ≡ false) × (r ≡ ok tt)
if_ok true k m r h = absurd (cc h)
if_ok false k m r h = (refl, h)

module _ (w : World) where
  check_partner-IsPublic :
      (u : Url) (found : Option (List Address))
      → w.resolve u.host (port_of u) ≡ found
      → check_partner w found ≡ ok tt
      → IsPublic w u
  check_partner-IsPublic u none e h = absurd (cc h)
  check_partner-IsPublic u (some l) e h = elim (Bool-cases (any_internal l)) [
    | inl bad ↦ absurd (ground (arith, h, bad))
    | inr good ↦ record { addresses = l; resolved = e; public = any_internal-AllOf l good }
  ]

  -- An endpoint that is accepted for a partner without a private network has a host, its host
  -- resolves, and only to addresses that are public; and in production it is not plain HTTP.
  pub validate_endpoint-IsPublic :
      (py : Python) (base_url : String) (u : Url)
      → w.parse_url base_url ≡ ok u
      → validate_endpoint w py base_url false ≡ ok tt
      → IsPublic w u × (u.host ≢ "") × (u.scheme ≡ "http" → is_production w py ≡ false)
  unfolding validate_endpoint
  validate_endpoint-IsPublic py base_url u e h =
      let (shape, rest) =
        if_ok
          (not (str_eq u.scheme "https" || str_eq u.scheme "http" || str_eq u.scheme "sftp")
            || str_eq u.host "")
          value_error "base URL must be a valid HTTP(S) URL" _ (rw e at h) in
      let (secure, found) =
        if_ok (str_eq u.scheme "http" && is_production w py) value_error
          "Production partner endpoints must use HTTPS" _ rest in
      (
        check_partner-IsPublic u (w.resolve u.host (port_of u)) refl found,
        λ none_. ground (arith, shape, eq_iff u.host "", none_),
        λ plain. ground (arith, secure, eq_iff u.scheme "http", plain),
      )

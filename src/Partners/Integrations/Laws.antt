-- ===== src/Partners/Integrations/Laws.antt =====
-- Which integration is loaded.
use mathlib.Core.Path.{subst}
use thuso_wechat_ls.Base.{
  ℕ, ◌≤◌, ◌≡◌, refl, sym, ap, inl, inr, Bool, true, false, Option, none, some, [], ◌∷◌, String,
  Bool-cases, leb, Table, Stands, Result, ok, err, arith,
}
use thuso_wechat_ls.Base.Json.{Python, Fields}
use thuso_wechat_ls.Partners.Integrations.{
  PartnerRow, PartnerIntegration, newest, later, is_active, load_active_partner, build_row, build,
  secrets_of, build_from,
}

-- No row of the table that passes the test is newer.
abbrev pub IsNewest : (ℕ → PartnerRow → Bool) → PartnerRow → Table PartnerRow → Type 0
IsNewest p row [] = Unit
IsNewest p row ((j, other) ∷ t) =
    (p j other ≡ true → other.updated_at ≤ row.updated_at) × IsNewest p row t

-- The test fails on every row.
abbrev pub NonePass : (ℕ → PartnerRow → Bool) → Table PartnerRow → Type 0
NonePass p [] = Unit
NonePass p ((j, row) ∷ t) = (p j row ≡ false) × NonePass p t

-- What a query for the newest row gives.
abbrev pub IsAnswer : (ℕ → PartnerRow → Bool) → Table PartnerRow → Option (ℕ × PartnerRow) → Type 0
IsAnswer p t none = NonePass p t
IsAnswer p t (some (id, row)) = Stands id row t × (p id row ≡ true) × IsNewest p row t

IsNewest-of_none :
    (p : ℕ → PartnerRow → Bool) (row : PartnerRow) (t : Table PartnerRow)
    → NonePass p t
    → IsNewest p row t
IsNewest-of_none p row [] h = tt
IsNewest-of_none p row ((j, other) ∷ t) h =
    (λ e. absurd (cc (e, h.0)), IsNewest-of_none p row t h.1)

IsNewest-trans :
    (p : ℕ → PartnerRow → Bool) (row newer : PartnerRow) (t : Table PartnerRow)
    → row.updated_at ≤ newer.updated_at
    → IsNewest p row t
    → IsNewest p newer t
IsNewest-trans p row newer [] le h = tt
IsNewest-trans p row newer ((j, other) ∷ t) le h =
    (λ e. omega (arith, h.0 e, le), IsNewest-trans p row newer t le h.1)

later-IsAnswer :
    (p : ℕ → PartnerRow → Bool) (id : ℕ) (row : PartnerRow) (t : Table PartnerRow)
    (rest : Option (ℕ × PartnerRow))
    → p id row ≡ true
    → IsAnswer p t rest
    → IsAnswer p ((id, row) ∷ t) (later id row rest)
later-IsAnswer p id row t none e h = (inl refl, e, ((λ _. omega arith), IsNewest-of_none p row t h))
later-IsAnswer p id row t (some (j, other)) e h =
    elim (Bool-cases (leb other.updated_at row.updated_at)) [
      | inl le ↦
          rw le (
            inl refl,
            e,
            ((λ _. omega arith), IsNewest-trans p other row t (ground (arith, le)) h.2),
          )
      | inr gt ↦ rw gt (inr h.0, h.1, ((λ _. ground (arith, gt)), h.2))
    ]

newest-IsAnswer : (p : ℕ → PartnerRow → Bool) (t : Table PartnerRow) → IsAnswer p t (newest p t)
unfolding newest
newest-IsAnswer p [] = tt
newest-IsAnswer p ((id, row) ∷ t) = elim (Bool-cases (p id row)) [
  | inl e ↦ rw e (later-IsAnswer p id row t (newest p t) e (newest-IsAnswer p t))
  | inr e ↦ rw e (skip (newest p t) e (newest-IsAnswer p t))
]
  where
    skip :
        (rest : Option (ℕ × PartnerRow))
        → p id row ≡ false
        → IsAnswer p t rest
        → IsAnswer p ((id, row) ∷ t) rest
    skip none e h = (e, h)
    skip (some (j, other)) e h = (inr h.0, h.1, ((λ f. absurd (cc (e, f))), h.2))

-- The integration is a row of the table with some secrets: active for the domain, and for the
-- provider where one is asked for, no other such row is newer, and its timeout is between 5 and 180
-- seconds.
pub record IsLoaded (partners : Table PartnerRow) (service_domain : String)
    (provider_key : Option String) (config : PartnerIntegration) : Type 0 where
  pub id : ℕ
  pub row : PartnerRow
  pub plain_secrets : Fields
  pub built : config ≡ build id row plain_secrets
  pub stands : Stands id row partners
  pub active : is_active service_domain provider_key id row ≡ true
  pub latest : IsNewest (is_active service_domain provider_key) row partners
  pub timeout : (5 ≤ config.timeout_seconds) × (config.timeout_seconds ≤ 180)

abbrev InRange : PartnerIntegration → Type 0
InRange config = (5 ≤ config.timeout_seconds) × (config.timeout_seconds ≤ 180)

timeout_range : (id : ℕ) (row : PartnerRow) (fs : Fields) → InRange (build id row fs)
unfolding build
timeout_range id row fs = omega arith

config_of : PartnerIntegration → Result (Option PartnerIntegration) → PartnerIntegration
config_of d (ok (some config)) = config
config_of d r = d

module _ (py : Python) (decrypt : String → Result String) (partners : Table PartnerRow)
    (service_domain : String) (provider_key : Option String) where
  build_from-IsLoaded :
      (id : ℕ) (row : PartnerRow) (plain : Result Fields) (config : PartnerIntegration)
      → IsAnswer (is_active service_domain provider_key) partners (some (id, row))
      → build_from py decrypt id row plain ≡ ok (some config)
      → IsLoaded partners service_domain provider_key config
  unfolding config_of
  build_from-IsLoaded id row (err k m) config a h = absurd (cc h)
  build_from-IsLoaded id row (ok fs) config a h =
      let same : build id row fs ≡ config =
        ap (λ (r : Result (Option PartnerIntegration)). config_of config r) h in
      record {
        id = id;
        row = row;
        plain_secrets = fs;
        built = sym same;
        stands = a.0;
        active = a.1;
        latest = a.2;
        timeout = subst InRange same (timeout_range id row fs);
      }

  found-IsLoaded :
      (found : Option (ℕ × PartnerRow)) (config : PartnerIntegration)
      → IsAnswer (is_active service_domain provider_key) partners found
      → build_row py decrypt found ≡ ok (some config)
      → IsLoaded partners service_domain provider_key config
  found-IsLoaded none config a h = absurd (cc h)
  found-IsLoaded (some (id, row)) config a h =
      build_from-IsLoaded id row (secrets_of py decrypt row.secret_ciphertext) config a h

  -- The integration that is loaded is the newest active row for the domain and the provider, and
  -- its timeout is between 5 and 180 seconds.
  load_active_partner-IsLoaded :
      (config : PartnerIntegration)
      → load_active_partner py decrypt partners service_domain provider_key ≡ ok (some config)
      → IsLoaded partners service_domain provider_key config
  unfolding load_active_partner
  load_active_partner-IsLoaded config h =
      found-IsLoaded (newest (is_active service_domain provider_key) partners) config
        (newest-IsAnswer (is_active service_domain provider_key) partners) h

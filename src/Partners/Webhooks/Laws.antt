-- ===== src/Partners/Webhooks/Laws.antt =====
-- What an accepted webhook shows.
use text.Mathlib.Text.{◌==◌ as str_eq}
use text.Mathlib.TextEquality.{eq_iff}
use thuso_wechat_ls.Base.{
  ℕ, ◌≡◌, ◌≢◌, refl, ap, ◌∙◌, inl, inr, Bool, true, false, ◌&&◌, Option, none, some, String, ◌<>◌,
  Bool-cases, if◌then◌else◌, Result, ok, err, Kind, arith,
}
use thuso_wechat_ls.Base.Int.{ℤ}
use thuso_wechat_ls.Base.Text.{remove_prefix, is_ascii}
use thuso_wechat_ls.Base.Dict.{Dict}
use thuso_wechat_ls.Base.Json.{Python, get, truthy, str_of}
use thuso_wechat_ls.Partners.World.{World}
use thuso_wechat_ls.Partners.Integrations.{PartnerIntegration}
use thuso_wechat_ls.Partners.Webhooks.{
  verify_webhook, verify_hmac, signature, expected_signature, check_age, bad_timestamp,
  compare_signature, after_age, is_too_old, max_age_of, header_of, header_is, scheme_of,
}

-- A test that lets a webhook pass, and one that refuses it.
passed :
    (b : Bool) (k : Kind) (m : String) → (if b then ok (tt {0}) else err k m) ≡ ok tt → b ≡ true
passed true k m h = refl
passed false k m h = absurd (cc h)

refused :
    (b : Bool) (k : Kind) (m : String) (r : Result (Unit {0}))
    → (if b then err k m else r) ≡ ok tt
    → r ≡ ok tt
refused true k m r h = absurd (cc h)
refused false k m r h = h

module _ (py : Python) (w : World) (now : ℕ) (config : PartnerIntegration) (headers : Dict String)
    (body : String) where
  -- The header shows the configured secret, in this form.
  pub record ShowsKey (option default shown : String) : Type 0 where
    pub configured : truthy (get "api_key" config.secrets) ≡ true
    pub sent : header_of py w config headers option default ≡ some shown

  -- The body is signed with the configured secret, with a time that is not too old.
  pub record IsSigned : Type 0 where
    pub configured : truthy (get "hmac_secret" config.secrets) ≡ true
    pub signature_text : String
    pub timestamp : String
    pub sent_at : ℤ
    pub max_age : ℤ
    pub signature_sent :
        header_of py w config headers "signature_header" "x-signature" ≡ some signature_text
    pub timestamp_sent :
        header_of py w config headers "timestamp_header" "x-timestamp" ≡ some timestamp
    pub signed :
        remove_prefix signature_text "sha256=" ≡ expected_signature py w config body timestamp
    pub read : py.int_of timestamp ≡ some sent_at
    pub limit : max_age_of py w config ≡ ok max_age
    pub fresh : is_too_old py w now sent_at max_age ≡ false

  -- What the scheme of the configuration asks for.
  pub data Accepted : Type 0 where
    unprotected : scheme_of py w config ≡ "none" → Accepted
    by_bearer :
        scheme_of py w config ≡ "bearer"
        → ShowsKey "header_name" "authorization"
            ("Bearer " <> str_of py (get "api_key" config.secrets))
        → Accepted
    by_key :
        scheme_of py w config ≡ "api-key"
        → ShowsKey "header_name" "x-api-key" (str_of py (get "api_key" config.secrets))
        → Accepted
    by_signature : scheme_of py w config ≡ "hmac_sha256" → IsSigned → Accepted

  shown_key :
      (option default shown : String) (sent : Option String)
      → header_of py w config headers option default ≡ sent
      → (truthy (get "api_key" config.secrets) && header_is py w shown sent) ≡ true
      → ShowsKey option default shown
  shown_key option default shown none e h = absurd (ground (arith, h))
  shown_key option default shown (some provided) e h = record {
    configured = ground (arith, h);
    sent = e ∙ ap some (ground (arith, h, eq_iff provided shown));
  }

  after_age_ok :
      (r rest : Result (Unit {0})) → after_age py w r rest ≡ ok tt → (r ≡ ok tt) × (rest ≡ ok tt)
  after_age_ok (ok u) rest h = (refl, h)
  after_age_ok (err k m) rest h = absurd (cc h)

  bad_timestamp_err : (k : Kind) (m : String) → bad_timestamp py w k m ≢ ok tt
  bad_timestamp_err k m h = absurd (ground (arith, h))

  check_age_ok :
      (sent_at : Option ℤ) (max_age : Result ℤ)
      → check_age py w now sent_at max_age ≡ ok tt
      → (t : ℤ) × (limit : ℤ) × (sent_at ≡ some t)
        × (max_age ≡ ok limit)
        × (is_too_old py w now t limit ≡ false)
  check_age_ok none max_age h = absurd (cc h)
  check_age_ok (some t) (err k m) h = absurd (bad_timestamp_err k m h)
  check_age_ok (some t) (ok limit) h = elim (Bool-cases (is_too_old py w now t limit)) [
    | inl e ↦ absurd (ground (arith, h, e))
    | inr e ↦ (t, limit, refl, refl, e)
  ]

  compared :
      (provided expected : String)
      → compare_signature py w provided (ok expected) ≡ ok tt
      → remove_prefix provided "sha256=" ≡ expected
  compared provided expected h =
      elim (Bool-cases (is_ascii (remove_prefix provided "sha256=") && is_ascii expected)) [
        | inl e ↦ (eq_iff _ _).0 (passed _ _ _ (rw e at h))
        | inr e ↦ absurd (cc (rw e at h))
      ]

  compare_ok :
      (provided timestamp : String)
      → compare_signature py w provided (signature py w config body timestamp) ≡ ok tt
      → (truthy (get "hmac_secret" config.secrets) ≡ true)
        × (remove_prefix provided "sha256=" ≡ expected_signature py w config body timestamp)
  unfolding signature
  compare_ok provided timestamp h = elim (Bool-cases (truthy (get "hmac_secret" config.secrets))) [
    | inl e ↦ (e, compared provided (expected_signature py w config body timestamp) (rw e at h))
    | inr e ↦ absurd (cc (rw e at h))
  ]

  signed_lem :
      (signature_text timestamp : Option String)
      → header_of py w config headers "signature_header" "x-signature" ≡ signature_text
      → header_of py w config headers "timestamp_header" "x-timestamp" ≡ timestamp
      → verify_hmac py w now config signature_text timestamp body ≡ ok tt
      → IsSigned
  unfolding verify_hmac
  signed_lem none timestamp e f h = absurd (cc h)
  signed_lem (some s) none e f h = absurd (ground (arith, h))
  signed_lem (some s) (some t) e f h =
      let (age, compared) =
        after_age_ok (check_age py w now (py.int_of t) (max_age_of py w config))
          (compare_signature py w s (signature py w config body t)) (refused _ _ _ _ h) in
      let (sent_at, max_age, read, limit, fresh) =
        check_age_ok (py.int_of t) (max_age_of py w config) age in
      let (configured, signed) = compare_ok s t compared in
      record {
        configured = configured;
        signature_text = s;
        timestamp = t;
        sent_at = sent_at;
        max_age = max_age;
        signature_sent = e;
        timestamp_sent = f;
        signed = signed;
        read = read;
        limit = limit;
        fresh = fresh;
      }

  -- A webhook is accepted only where its configuration asks for nothing, or where it shows the key
  -- that is configured, or is signed with the configured secret at a time that is not too old.
  pub verify_webhook-Accepted : verify_webhook py w now config headers body ≡ ok tt → Accepted
  unfolding verify_webhook
  verify_webhook-Accepted h = elim (Bool-cases (str_eq (scheme_of py w config) "none")) [
    | inl e ↦ unprotected ((eq_iff _ _).0 e)
    | inr n ↦ elim (Bool-cases (str_eq (scheme_of py w config) "bearer")) [
      | inl e ↦
          by_bearer ((eq_iff _ _).0 e) (shown_key _ _ _ _ refl (passed _ _ _ (rw (n, e) at h)))
      | inr b ↦ elim (Bool-cases (str_eq (scheme_of py w config) "api-key")) [
        | inl e ↦
            by_key ((eq_iff _ _).0 e) (shown_key _ _ _ _ refl (passed _ _ _ (rw (n, b, e) at h)))
        | inr a ↦ elim (Bool-cases (str_eq (scheme_of py w config) "hmac_sha256")) [
          | inl e ↦
              by_signature ((eq_iff _ _).0 e) (signed_lem _ _ refl refl (rw (n, b, a, e) at h))
          | inr o ↦ absurd (cc (rw (n, b, a, o) at h))
        ]
      ]
    ]
  ]

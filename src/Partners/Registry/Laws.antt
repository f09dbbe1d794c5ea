-- ===== src/Partners/Registry/Laws.antt =====
-- The registry of adapters as a map: what is registered is found, and nothing is replaced.
use text.Mathlib.Text.{◌==◌ as str_eq}
use text.Mathlib.TextEquality.{eq_iff}
use thuso_wechat_ls.Base.{
  ◌≡◌, ◌≢◌, refl, ap, inl, inr, false, ◌||◌, Option, none, some, String, is_some, Bool-cases,
  if◌then◌else◌, Result, ok, arith,
}
use thuso_wechat_ls.Base.Dict.{Dict, lookup, insert, lookup-insert}
use thuso_wechat_ls.Partners.Registry.{register, adapter_for}

no_entry : {A : Type 0} (o : Option A) → is_some o ≡ false → o ≡ none
no_entry none h = refl
no_entry (some a) h = absurd (cc h)

module _ {A : Type 0} (key : String) (adapter : A) (before after : Dict A) where
  -- An adapter that is registered is found under its key; every key that had an adapter keeps it,
  -- and every other key is unsupported as before.
  adapter_for-register :
      register key adapter before ≡ (ok tt, after)
      → (adapter_for key after ≡ ok adapter)
        × ((other : String) → other ≢ key → adapter_for other after ≡ adapter_for other before)
        × ((other : String) (old : A)
            → adapter_for other before ≡ ok old
            → adapter_for other after ≡ ok old)
  unfolding register adapter_for
  adapter_for-register h = elim (Bool-cases (str_eq key "" || is_some (lookup key before))) [
    | inl taken ↦ absurd (ground (arith, h, taken))
    | inr free ↦
        let same : insert key adapter before ≡ after =
          ap (λ (p : Result (Unit {0}) × Dict A). p.1) (rw free at h) in
        let at : (other : String)
            → lookup other after
              ≡ (if str_eq other key then some adapter else lookup other before) =
          λ other. rw (← same) (lookup-insert other key adapter before) in
        (
          ground (arith, at key, eq_iff key key),
          λ other ne. ground (arith, at other, eq_iff other key, ne),
          λ other old found. elim (Bool-cases (str_eq other key)) [
            | inl e ↦
                let none_ : lookup key before ≡ none = no_entry _ (ground (arith, free)) in
                absurd
                  (ground (arith, found, none_, ap (λ k. lookup k before) ((eq_iff other key).0 e)))
            | inr e ↦ ground (arith, at other, e, found)
          ],
        )
  ]

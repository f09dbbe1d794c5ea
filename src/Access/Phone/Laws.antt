-- ===== src/Access/Phone/Laws.antt =====
-- A normalized number is its own normal form.
use Prim.Native.Char.{Char}
use Prim.Native.String.{count}
use thuso_wechat_ls.Base.{
  ◌≤◌, ◌≡◌, refl, sym, ap, inl, inr, Bool, true, ◌&&◌, String, leb, Bool-cases, Result, ok, err,
  arith,
}
use thuso_wechat_ls.Access.Phone.{
  plus, drop_one, starts_plus, keep_digits, all_digits, international, check_digits,
  normalize_phone,
}

-- The text of a result.
text_of : String → Result String → String
text_of d (ok s) = s
text_of d (err k m) = d

module _ (strip : String → String) (is_digit : Char → Bool) where
  -- A plus, then 8 to 15 digits.
  pub record IsE164 (phone : String) : Type 0 where
    pub digits : String
    pub written : phone ≡ String.◌∷◌ plus digits
    pub all_of_them : all_digits strip is_digit digits ≡ true
    pub long_enough : 8 ≤ count digits
    pub short_enough : count digits ≤ 15

  check_digits-IsE164 :
      (digits phone : String) → check_digits strip is_digit digits ≡ ok phone → IsE164 phone
  unfolding text_of
  check_digits-IsE164 digits phone h =
      elim (Bool-cases
        (all_digits strip is_digit digits && leb 8 (count digits) && leb (count digits) 15)) [
          | inl e ↦ record {
            digits = digits;
            written = sym (ap (text_of phone) (rw e at h));
            all_of_them = ground (arith, e);
            long_enough = ground (arith, e);
            short_enough = ground (arith, e);
          }
          | inr e ↦ absurd (cc (rw e at h))
        ]

  normalize_phone-IsE164 :
      (value phone : String) → normalize_phone strip is_digit value ≡ ok phone → IsE164 phone
  unfolding normalize_phone
  normalize_phone-IsE164 value phone h =
      elim (Bool-cases
        (starts_plus (international strip is_digit (keep_digits strip is_digit (strip value))))) [
          | inl e ↦
              check_digits-IsE164
                (drop_one (international strip is_digit (keep_digits strip is_digit (strip value))))
                phone (rw e at h)
          | inr e ↦ absurd (cc (rw e at h))
        ]

  keep_digits-all_digits :
      (s : String) → all_digits strip is_digit s ≡ true → keep_digits strip is_digit s ≡ s
  unfolding keep_digits all_digits
  keep_digits-all_digits String.[] h = refl
  keep_digits-all_digits (String.◌∷◌ c s) h = elim (Bool-cases (is_digit c)) [
    | inl e ↦ rw e (ap (String.◌∷◌ c) (keep_digits-all_digits s (rw e at h)))
    | inr e ↦ absurd (ground (arith, h, e))
  ]

  keep_digits-plus :
      (s : String)
      → all_digits strip is_digit s ≡ true
      → keep_digits strip is_digit (String.◌∷◌ plus s) ≡ String.◌∷◌ plus s
  unfolding keep_digits
  keep_digits-plus s h = elim (Bool-cases (is_digit plus)) [
    | inl e ↦ rw e (ap (String.◌∷◌ plus) (keep_digits-all_digits s h))
    | inr e ↦ rw e (ap (String.◌∷◌ plus) (keep_digits-all_digits s h))
  ]

  E164-normal :
      (phone : String)
      → IsE164 phone
      → strip phone ≡ phone
      → normalize_phone strip is_digit phone ≡ ok phone
  unfolding normalize_phone
  E164-normal phone n same =
      let kept = keep_digits-plus n.digits n.all_of_them in
      rw (same, n.written, kept) (ground (arith, n.all_of_them, n.long_enough, n.short_enough))

  -- A number that is accepted is a plus and 8 to 15 digits, and normalizing it again gives it back;
  -- stripping it of white space leaves it as it is.
  normalize_phone-normal :
      (value phone : String)
      → strip phone ≡ phone
      → normalize_phone strip is_digit value ≡ ok phone
      → IsE164 phone × (normalize_phone strip is_digit phone ≡ ok phone)
  normalize_phone-normal value phone same h =
      let n = normalize_phone-IsE164 value phone h in (n, E164-normal phone n same)

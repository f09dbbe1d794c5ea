-- ===== src/Access/Passwords.antt =====
-- The passwords of administrators: `_password_hash`, `_password_verify`, `hash_admin_password` and
-- `verify_admin_password` of app/core/admin_auth.py. Bytes stand as texts.
use Prim.Native.String.{len, count}
use text.Mathlib.Text.{◌==◌ as str_eq}
use thuso_wechat_ls.Base.{
  ℕ, Bool, true, false, Option, none, some, String, ◌<>◌, ltb, if◌then◌else◌, Result, ok, err,
  value_error,
}
use thuso_wechat_ls.Base.Text.{split_once}
pub mod Laws

-- `hashlib.scrypt` with its default `maxmem`, URL-safe base 64, `str` and `int`; what they refuse
-- with a `TypeError` or a `ValueError` gives nothing.
pub record Hashing : Type 0 where
  pub scrypt : (password salt : String) → (n r p dklen : ℕ) → Option String
  pub encode : String → String
  pub decode : String → Option String
  pub decimal : ℕ → String
  pub int_of : String → Option ℕ

-- `encoded.split("$", 5)`
pub record Parts : Type 0 where
  pub algorithm : String
  pub n : String
  pub r : String
  pub p : String
  pub salt : String
  pub digest : String

-- What follows a split; too few parts are a `ValueError`.
abbrev pub then_split {ℓ} :
    {A : Type ℓ} → (String → String → Option A) → Option (String × String) → Option A
then_split f none = none
then_split f (some (a, rest)) = f a rest

abbrev pub split_parts : String → Option Parts
split_parts encoded =
    then_split
      (λ algorithm s1.
        then_split
          (λ n s2.
            then_split
              (λ r s3.
                then_split
                  (λ p s4.
                    then_split
                      (λ salt digest. some (record {
                        algorithm = algorithm;
                        n = n;
                        r = r;
                        p = p;
                        salt = salt;
                        digest = digest;
                      }))
                      (split_once b'$' s4))
                  (split_once b'$' s3))
              (split_once b'$' s2))
          (split_once b'$' s1))
      (split_once b'$' encoded)

module _ (h : Hashing) where
  abbrev pub encoded_digest : (salt : String) → Option String → Option String
  encoded_digest salt none = none
  encoded_digest salt (some digest) = some (
      "scrypt"
      <> ("$"
          <> (h.decimal 32768
              <> ("$"
                  <> (h.decimal 8
                      <> ("$"
                          <> (h.decimal 1
                              <> ("$" <> (h.encode salt <> ("$" <> h.encode digest))))))))))

  -- `salt` is `os.urandom(16)`.
  unfoldable pub password_hash : (salt password : String) → Option String
  password_hash salt password = encoded_digest salt (h.scrypt password salt 32768 8 1 64)

  abbrev pub matches : Option String → String → Bool
  matches none expected = false
  matches (some digest) expected = str_eq digest expected

  abbrev pub compare_digest :
      String → Option String → Option String → Option ℕ → Option ℕ → Option ℕ → Bool
  compare_digest password (some salt) (some digest) (some n) (some r) (some p) =
      matches (h.scrypt password salt n r p (len digest)) digest
  compare_digest password salt digest n r p = false

  abbrev pub verify_parts : String → Option Parts → Bool
  verify_parts password none = false
  verify_parts password (some parts) =
      if str_eq parts.algorithm "scrypt"
      then compare_digest password (h.decode parts.salt) (h.decode parts.digest) (h.int_of parts.n)
          (h.int_of parts.r) (h.int_of parts.p)
      else false

  unfoldable pub verify_admin_password : (password encoded : String) → Bool
  unfolding split_once
  verify_admin_password password encoded = verify_parts password (split_parts encoded)

  abbrev pub hashed : Option String → Result String
  hashed none = err value_error "scrypt failed"
  hashed (some encoded) = ok encoded

  unfoldable pub hash_admin_password : (salt password : String) → Result String
  unfolding password_hash
  hash_admin_password salt password =
      if ltb (count password) 12
      then err value_error "Admin passwords must be at least 12 characters"
      else hashed (password_hash salt password)

-- ===== src/Access/Passwords/Laws.antt =====
-- The parameters of the passwords' hash, and the memory that it is allowed.
use Prim.Native.String.{count, len}
use text.Mathlib.Text.{◌==◌ as str_eq}
use thuso_wechat_ls.Base.{
  ℕ, ◌≡◌, ◌+◌, ◌*◌, ◌<◌, refl, inl, inr, false, Option, none, some, String, ltb, Bool-cases, is_ok,
  arith,
}
use thuso_wechat_ls.Access.Passwords.{
  Hashing, Parts, split_parts, compare_digest, verify_admin_password, hash_admin_password,
  password_hash,
}

-- The memory of a call of scrypt, and what OpenSSL allows where no `maxmem` is given: 32 MiB.
abbrev pub scrypt_memory : (n r p : ℕ) → ℕ
scrypt_memory n r p = 128 * r * p + 128 * r * (n + 2)

abbrev pub default_maxmem : ℕ
default_maxmem = 33554432

module _ (h : Hashing) where
  -- A call that needs more memory than that is a `ValueError`.
  pub record IsLimited : Type 0 where
    pub refuses :
        (password salt : String) (n r p dklen : ℕ)
        → default_maxmem < scrypt_memory n r p
        → h.scrypt password salt n r p dklen ≡ none

  compare_refused :
      (password : String) (salt digest : Option String) (n r p : Option ℕ)
      → IsLimited
      → n ≡ some 32768
      → r ≡ some 8
      → p ≡ some 1
      → compare_digest h password salt digest n r p ≡ false
  compare_refused password none digest n r p l e f g = refl
  compare_refused password (some salt) none n r p l e f g = refl
  compare_refused password (some salt) (some digest) n r p l e f g =
      rw (e, f, g, l.refuses password salt 32768 8 1 (len digest) (omega arith)) refl

  -- With the parameters of the code, and the memory that OpenSSL allows by default, no password can be
  -- hashed, and no password opens a hash with these parameters.
  pub hash_admin_password_refused :
      (password salt encoded : String) (parts : Parts)
      → IsLimited
      → split_parts encoded ≡ some parts
      → h.int_of parts.n ≡ some 32768
      → h.int_of parts.r ≡ some 8
      → h.int_of parts.p ≡ some 1
      → (is_ok (hash_admin_password h salt password) ≡ false)
        × (verify_admin_password h password encoded ≡ false)
  unfolding hash_admin_password password_hash verify_admin_password
  hash_admin_password_refused password salt encoded parts l shape e f g = (
    elim (Bool-cases (ltb (count password) 12)) [
      | inl short ↦ rw short refl
      | inr long ↦ rw (long, l.refuses password salt 32768 8 1 64 (omega arith)) refl
    ],
    elim (Bool-cases (str_eq parts.algorithm "scrypt")) [
      | inl scrypt ↦
          rw (shape, scrypt)
            (compare_refused password (h.decode parts.salt) (h.decode parts.digest)
              (h.int_of parts.n) (h.int_of parts.r) (h.int_of parts.p) l e f g)
      | inr other ↦ rw (shape, other) refl
    ],
  )

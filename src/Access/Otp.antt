-- ===== src/Access/Otp.antt =====
-- One-time codes: `create_otp` and `verify_otp` of app/core/identity.py.
use Prim.Native.String.{slice}
use text.Mathlib.Text.{◌==◌ as str_eq}
use thuso_wechat_ls.Base.{
  ℕ, zero, suc, ◌+◌, ◌/◌, ◌%◌, Bool, true, false, not, ◌||◌, Option, none, some, String, ◌<>◌, leb,
  if◌then◌else◌, is_some, Table, find, put,
}
pub mod Laws

pub record OtpChallenge : Type 0 where
  pub user_id : ℕ
  pub channel_identity_id : ℕ
  pub purpose : String
  pub code_hash : String
  pub attempts : ℕ
  pub max_attempts : ℕ
  pub expires_at : ℕ
  pub consumed_at : Option ℕ

-- The last decimal digits of a number: `f'{n:06d}'` of a number below a million.
unfoldable pub digits : ℕ → ℕ → String
digits zero n = ""
digits (suc w) n = digits w (n / 10) <> slice "0123456789" (n % 10) (n % 10 + 1)

-- `hash_secret` and `strip`, and the settings for the life of a code and the attempts on it.
module _ (hash_secret : String → String) (strip : String → String)
    (otp_ttl_seconds otp_max_attempts : ℕ) where
  -- `random` is `secrets.randbelow(1_000_000)`.
  unfoldable pub create_otp :
      (now random new_id user_id channel_identity_id : ℕ)
      → (purpose : String) → Table OtpChallenge
      → (ℕ × String × ℕ) × Table OtpChallenge
  unfolding digits
  create_otp now random new_id user identity purpose t = (
    (new_id, digits 6 random, now + otp_ttl_seconds),
    put new_id
        (record {
          user_id = user;
          channel_identity_id = identity;
          purpose = purpose;
          code_hash = hash_secret (digits 6 random);
          attempts = 0;
          max_attempts = otp_max_attempts;
          expires_at = now + otp_ttl_seconds;
          consumed_at = none;
        })
        t,
  )

  abbrev pub is_closed : (now : ℕ) → OtpChallenge → Bool
  is_closed now c = is_some c.consumed_at || leb c.expires_at now || leb c.max_attempts c.attempts

  abbrev pub attempted : OtpChallenge → OtpChallenge
  attempted c = record c { attempts = c.attempts + 1 }

  abbrev pub consumed : ℕ → OtpChallenge → OtpChallenge
  consumed now c = record c { consumed_at = some now }

  abbrev pub verify_row :
      (now id : ℕ)
      → (code : String) → Option OtpChallenge
      → Table OtpChallenge
      → Bool × Table OtpChallenge
  verify_row now id code none t = (false, t)
  verify_row now id code (some c) t =
      if is_closed now c
      then (false, t)
      else if str_eq c.code_hash (hash_secret (strip code))
      then (true, put id (consumed now (attempted c)) t)
      else (false, put id (attempted c) t)

  unfoldable pub verify_otp :
      (now challenge_id : ℕ) → (code : String) → Table OtpChallenge → Bool × Table OtpChallenge
  verify_otp now id code t = verify_row now id code (find id t) t

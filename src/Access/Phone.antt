-- ===== src/Access/Phone.antt =====
-- `normalize_phone` of app/core/identity.py.
use Prim.Native.Char.{Char, code}
use Prim.Native.String.{count}
use thuso_wechat_ls.Base.{
  ℕ, Bool, true, false, not, ◌&&◌, ◌||◌, String, ◌==◌, leb, if◌then◌else◌, Result, ok, err,
  value_error,
}
pub mod Laws

-- `+`
abbrev pub plus : Char
plus = "+"

-- `text[1:]` and `text[2:]`
abbrev pub drop_one : String → String
drop_one String.[] = String.[]
drop_one (String.◌∷◌ c s) = s

-- `raw.startswith('+')` and `raw.startswith('00')`
abbrev pub starts_plus : String → Bool
starts_plus String.[] = false
starts_plus (String.◌∷◌ c s) = code c == b'+'

abbrev pub starts_zero : String → Bool
starts_zero String.[] = false
starts_zero (String.◌∷◌ c s) = code c == b'0'

-- `strip` is `text.strip()`, and `is_digit` is `ch.isdigit()` of one character.
module _ (strip : String → String) (is_digit : Char → Bool) where
  -- `''.join(ch for ch in value if ch.isdigit() or ch == '+')`
  unfoldable pub keep_digits : String → String
  keep_digits String.[] = String.[]
  keep_digits (String.◌∷◌ c s) =
      let rest = keep_digits s in if is_digit c || code c == b'+' then String.◌∷◌ c rest else rest

  -- `digits.isdigit()`, of a text that is not empty
  unfoldable pub all_digits : String → Bool
  all_digits String.[] = true
  all_digits (String.◌∷◌ c s) = is_digit c && all_digits s

  abbrev pub international : String → String
  international raw =
      if starts_zero raw && starts_zero (drop_one raw)
      then String.◌∷◌ plus (drop_one (drop_one raw))
      else raw

  abbrev pub check_digits : String → Result String
  check_digits digits =
      if all_digits digits && leb 8 (count digits) && leb (count digits) 15
      then ok (String.◌∷◌ plus digits)
      else err value_error "invalid E.164 phone"

  unfoldable pub normalize_phone : String → Result String
  unfolding keep_digits all_digits
  normalize_phone value =
      let raw = international (keep_digits (strip value)) in
      if starts_plus raw then check_digits (drop_one raw) else err value_error "phone must be E.164"

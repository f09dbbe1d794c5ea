-- ===== src/Base/Uuid.antt =====
-- Row identifiers. A UUID is its number, and `str` of it is the 8-4-4-4-12 hexadecimal text.
use Prim.Native.Nat.{ℕ, zero, suc, ◌+◌, ◌/◌, ◌%◌, ◌^◌}
use Prim.Native.String.{String, ◌++◌, slice}

-- The `w` lowest hexadecimal digits of a number, the highest first.
hex_digits : ℕ → ℕ → String
hex_digits zero n = ""
hex_digits (suc w) n = hex_digits w (n / 16) ++ slice "0123456789abcdef" (n % 16) (n % 16 + 1)

-- `str(uuid)`
unfoldable pub uuid_text : ℕ → String
unfolding hex_digits
uuid_text n =
    hex_digits 8 (n / 2 ^ 96)
    ++ "-"
    ++ hex_digits 4 (n / 2 ^ 80)
    ++ "-"
    ++ hex_digits 4 (n / 2 ^ 64)
    ++ "-"
    ++ hex_digits 4 (n / 2 ^ 48)
    ++ "-"
    ++ hex_digits 12 n

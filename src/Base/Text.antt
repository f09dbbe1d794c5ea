-- ===== src/Base/Text.antt =====
-- Functions on texts: `split`, `in`, `startswith` and `endswith`.
use Prim.Native.Nat.{ℕ, suc, ◌-◌}
use Prim.Native.Char.{Char, code}
use Prim.Native.String.{String, len, slice, ◌++◌ as append}
use text.Mathlib.Text.{◌==◌ as str_eq, find?, starts_with}
use mathlib.Core.Bool.{Bool, true, false, ◌&&◌}
use text.Mathlib.TextLemmas.{cons-append, nil-append}
use mathlib.Core.Path.{◌≡◌, refl}
use mathlib.Core.Option.{Option, none, some}
use native.Mathlib.Omega.{arith}
use mathlib.Core.List.{List, [], ◌∷◌}
use thuso_wechat_ls.Base.Tests.{if◌then◌else◌, ◌==◌, ==_refl, is_some, ltb}

abbrev cons_head : Char → List String → List String
cons_head c [] = []
cons_head c (s ∷ l) = String.◌∷◌ c s ∷ l

-- `text.split(c)` at a character of the code `c`
unfoldable pub split : ℕ → String → List String
split c String.[] = String.[] ∷ []
split c (String.◌∷◌ x s) =
    let rest = split c s in if code x == c then String.[] ∷ rest else cons_head x rest

-- `part in text`
abbrev pub contains : String → String → Bool
contains s part = is_some (find? s part)

-- `text.endswith(part)`
abbrev pub ends_with : String → String → Bool
ends_with s part = str_eq (slice s (len s - len part) (len s)) part

-- `text.removeprefix(part)`
abbrev pub remove_prefix : String → String → String
remove_prefix s part = if starts_with s part then slice s (len part) (len s) else s

-- The places at which both braces of `{{` stand, none of them overlapping: `text.count("{{")`.
unfoldable pub count_opening : String → ℕ
count_opening String.[] = 0
count_opening (String.◌∷◌ a String.[]) = 0
count_opening (String.◌∷◌ a (String.◌∷◌ b s)) =
    let after = count_opening s in
    let next = count_opening (String.◌∷◌ b s) in
    if code a == b'{' && code b == b'{' then suc after else next

-- `text.lstrip(c)` and `text.rstrip(c)` at a character of the code `c`
unfoldable pub lstrip : ℕ → String → String
lstrip c String.[] = String.[]
lstrip c (String.◌∷◌ x s) = let rest = lstrip c s in if code x == c then rest else String.◌∷◌ x s

abbrev pub keep_unless : ℕ → Char → String → String
keep_unless c x String.[] = if code x == c then String.[] else String.◌∷◌ x String.[]
keep_unless c x (String.◌∷◌ y s) = String.◌∷◌ x (String.◌∷◌ y s)

unfoldable pub rstrip : ℕ → String → String
rstrip c String.[] = String.[]
rstrip c (String.◌∷◌ x s) = keep_unless c x (rstrip c s)

-- `text.split(c, 1)` at a character of the code `c`, or nothing where the text has none.
abbrev pub prepend : Char → Option (String × String) → Option (String × String)
prepend c none = none
prepend c (some (a, b)) = some (String.◌∷◌ c a, b)

unfoldable pub split_once : ℕ → String → Option (String × String)
split_once sep String.[] = none
split_once sep (String.◌∷◌ c s) =
    let rest = split_once sep s in if code c == sep then some (String.[], s) else prepend c rest

-- No character of the text has this code.
unfoldable pub Free : ℕ → String → Type 0
Free sep String.[] = Unit
Free sep (String.◌∷◌ c s) = ((code c == sep) ≡ false) × Free sep s

pub split_once-append :
    (sep : Char) (a b : String)
    → Free (code sep) a
    → split_once (code sep) (append a (String.◌∷◌ sep b)) ≡ some (a, b)
unfolding split_once Free
split_once-append sep String.[] b h =
    rw (nil-append (String.◌∷◌ sep b)) (ground (arith, ==_refl (code sep)))
split_once-append sep (String.◌∷◌ c a) b h =
    rw (cons-append c a (String.◌∷◌ sep b)) (rw (h.0, split_once-append sep a b h.1) refl)

-- `text.isascii()`
unfoldable pub is_ascii : String → Bool
is_ascii String.[] = true
is_ascii (String.◌∷◌ c s) = ltb (code c) 128 && is_ascii s

-- ===== src/Base/Json.antt =====
-- Values of JSON as the services handle them: `dict`, `list`, `str`, `int`, `bool` and `None`. A dict
-- keeps its keys in the order of their insertion.
use Prim.Native.Nat.{ℕ, zero, suc}
use Prim.Native.String.{String}
use text.Mathlib.Text.{◌==◌ as str_eq}
use mathlib.Core.Bool.{Bool, true, false, not}
use mathlib.Core.Option.{Option, none, some}
use thuso_wechat_ls.Base.Tests.{if◌then◌else◌, ◌==◌}
use thuso_wechat_ls.Base.Int.{ℤ, pos, negsuc}

-- A dict is its fields, a list is its items.
mutual
  pub data Value : Type 0 where
    obj : Fields → Value
    arr : Items → Value
    str : String → Value
    number : ℤ → Value
    boolean : Bool → Value
    null : Value

  pub data Fields : Type 0 where
    field : (key : String) (value : Value) (others : Fields) → Fields
    end : Fields

  pub data Items : Type 0 where
    cons : (first : Value) (others : Items) → Items
    nil : Items

-- `d.get(key)`, with a missing key told from a `None`.
unfoldable pub get_field : String → Fields → Option Value
get_field k end = none
get_field k (field j v fs) = if str_eq k j then some v else get_field k fs

-- `d.get(key)`
abbrev pub get : String → Fields → Value
get k fs = elim (get_field k fs) [ none ↦ null | some v ↦ v ]

-- `d.get(key, default)`
abbrev pub get_else : String → Value → Fields → Value
get_else k default fs = elim (get_field k fs) [ none ↦ default | some v ↦ v ]

-- `d[key] = v`
unfoldable pub set_field : String → Value → Fields → Fields
set_field k v end = field k v end
set_field k v (field j w fs) = if str_eq k j then field j v fs else field j w (set_field k v fs)

-- `{**a, **b}`
unfoldable pub merge : Fields → Fields → Fields
merge a end = a
merge a (field k v fs) = merge (set_field k v a) fs

-- `l[i]`
unfoldable pub get_item : ℕ → Items → Option Value
get_item i nil = none
get_item zero (cons v l) = some v
get_item (suc i) (cons v l) = get_item i l

unfoldable pub count_items : Items → ℕ
count_items nil = 0
count_items (cons v l) = suc (count_items l)

unfoldable pub append_item : Items → Value → Items
append_item nil v = cons v nil
append_item (cons w l) v = cons w (append_item l v)

-- `bool(value)`
abbrev pub truthy : Value → Bool
truthy null = false
truthy (boolean b) = b
truthy (number (pos n)) = not (n == 0)
truthy (number (negsuc n)) = true
truthy (str s) = not (str_eq s "")
truthy (arr nil) = false
truthy (arr (cons v l)) = true
truthy (obj end) = false
truthy (obj (field k v fs)) = true

-- `value or other`
abbrev pub or_else : Value → Value → Value
or_else v w = if truthy v then v else w

abbrev pub is_obj : Value → Bool
is_obj (obj fs) = true
is_obj _ = false

-- The built-in functions on values and texts that the services call.
pub record Python : Type 0 where
  -- `str(value)` of a value that is not a text
  pub repr : Value → String
  -- `int(text)`, or nothing where that raises a `ValueError`
  pub int_of : String → Option ℤ
  -- `text.lower()`, `text.upper()` and `text.strip()`
  pub lower : String → String
  pub upper : String → String
  pub strip : String → String
  -- `text.replace(old, new)`
  pub replace : String → String → String → String
  -- `json.dumps(value)`, and `json.loads(text)` or nothing where that raises
  pub dumps : Value → String
  pub loads : String → Option Value

-- `str(value)`
abbrev pub str_of : Python → Value → String
str_of py (str s) = s
str_of py v = py.repr v

-- `str(d.get(key, default))`
abbrev pub text_field : Python → String → String → Fields → String
text_field py k default fs = elim (get_field k fs) [ none ↦ default | some v ↦ str_of py v ]

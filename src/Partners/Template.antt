-- ===== src/Partners/Template.antt =====
-- app/services/template_engine.py: templates over JSON values, and paths into them.
pub mod Laws
use Prim.Native.String.{len, slice}
use text.Mathlib.Text.{starts_with, ◌==◌ as str_eq}
use thuso_wechat_ls.Base.{
  ℕ, ◌-◌, ◌+◌, ◌==◌, ltb, ◌&&◌, Bool, true, false, Option, none, some, List, [], ◌∷◌, String, ◌<>◌,
  if◌then◌else◌, Result, ok, err, Kind, key_error, value_error, index_error, attribute_error,
}
use thuso_wechat_ls.Base.Int.{ℤ, pos, negsuc}
use thuso_wechat_ls.Base.Text.{split, ends_with, count_opening}
use thuso_wechat_ls.Base.Json.{
  Value, null, boolean, number, str, arr, obj, Items, nil, cons, Fields, end, field, Python,
  get_field, get_item, truthy, str_of, count_items,
}

-- The loop of `template_value`.
unfoldable pub walk : List String → Value → Value
walk [] v = v
walk (part ∷ parts) (obj fs) = elim (get_field part fs) [ none ↦ null | some v ↦ walk parts v ]
walk (part ∷ parts) v = null

unfoldable pub template_value : String → Fields → Value
unfolding walk
template_value key variables = walk (split b'.' key) (obj variables)

-- `node.startswith("{{") and node.endswith("}}") and node.count("{{") == 1`
abbrev pub is_reference : String → Bool
is_reference node = starts_with node "{{" && ends_with node "}}" && count_opening node == 1

-- `value if value is not None else node`
abbrev pub present : Value → Value → Value
present null node = node
present v node = v

-- A sequence index of Python: a negative one counts from the end.
abbrev pub at_index : ℤ → Items → Option Value
at_index (pos i) l = get_item i l
at_index (negsuc i) l = if ltb i (count_items l) then get_item (count_items l - (i + 1)) l else none

module _ (py : Python) where
  -- The loop over the variables.
  unfoldable pub substitute : Fields → String → String
  substitute end s = s
  substitute (field k v fs) s = substitute fs (py.replace s ("{{" <> k <> "}}") (str_of py v))

  unfoldable pub render_text : Fields → String → Value
  unfolding substitute template_value count_opening
  render_text variables node =
      if is_reference node
      then present (template_value (py.strip (slice node 2 (len node - 2))) variables) (str node)
      else str (substitute variables node)

  unfoldable mutual
    unfolding render_text

    pub render : Value → Fields → Value
    render (obj fs) variables = obj (render_fields fs variables)
    render (arr l) variables = arr (render_items l variables)
    render (str s) variables = render_text variables s
    render null variables = null
    render (boolean b) variables = boolean b
    render (number n) variables = number n

    pub render_items : Items → Fields → Items
    render_items nil variables = nil
    render_items (cons v l) variables = cons (render v variables) (render_items l variables)

    pub render_fields : Fields → Fields → Fields
    render_fields end variables = end
    render_fields (field k v fs) variables =
        field k (render v variables) (render_fields fs variables)

  unfoldable pub json_steps : String → List String → Value → Result Value
  json_steps path [] v = ok v
  json_steps path (part ∷ parts) (arr l) = elim (py.int_of part) [
    | none ↦ err value_error "invalid literal for int()"
    | some i ↦ elim (at_index i l) [
      | none ↦ err index_error "list index out of range"
      | some v ↦ json_steps path parts v
    ]
  ]
  json_steps path (part ∷ parts) (obj fs) = elim (get_field part fs) [
    | none ↦ err key_error part
    | some v ↦ json_steps path parts v
  ]
  json_steps path (part ∷ parts) v = err key_error path

  -- An absent path and an empty one give the value itself.
  unfoldable pub json_path : Value → Option String → Result Value
  unfolding json_steps
  json_path v none = ok v
  json_path v (some path) = if str_eq path "" then ok v else json_steps path (split b'.' path) v

  -- `json_path(value, path)` of a configured path, which may be no text.
  abbrev pub mapped_path : Value → Value → Result Value
  mapped_path v null = ok v
  mapped_path v (str path) = json_path v (some path)
  mapped_path v other =
      if truthy other then err attribute_error "object has no attribute 'split'" else ok v

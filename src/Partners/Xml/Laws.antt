-- ===== src/Partners/Xml/Laws.antt =====
-- No child of an element is lost in its dictionary.
use text.Mathlib.Text.{◌==◌ as str_eq}
use thuso_wechat_ls.Base.{
  ℕ, suc, ◌+◌, ◌≡◌, refl, ap, inl, inr, Option, none, some, String, Bool-cases, arith,
}
use thuso_wechat_ls.Base.Json.{
  Value, null, boolean, number, str, arr, obj, Items, nil, cons, Fields, end, field, get_field,
  set_field, append_item, count_items,
}
use thuso_wechat_ls.Partners.Xml.{
  Element, element, Elements, no_more, child, collect, add_child, element_to_dict, add_children,
  local_name, tag_of,
}

-- The values that stand under a key: the entries of a list, or the value alone.
pub count_value : Value → ℕ
count_value (arr l) = count_items l
count_value v = 1

pub count_values : Fields → ℕ
unfolding count_value
count_values end = 0
count_values (field k v fs) = count_value v + count_values fs

pub count_elements : Elements → ℕ
count_elements no_more = 0
count_elements (child e es) = suc (count_elements es)

append_item-count : (l : Items) (v : Value) → count_items (append_item l v) ≡ suc (count_items l)
unfolding count_items append_item
append_item-count nil v = omega arith
append_item-count (cons w l) v = omega (arith, append_item-count l v)

collect-count :
    (w v : Value) → count_value v ≡ 1 → count_value (collect (some w) v) ≡ count_value w + 1
unfolding count_value count_items
collect-count (arr l) v h = omega (arith, append_item-count l v)
collect-count null v h = omega arith
collect-count (boolean b) v h = omega arith
collect-count (number n) v h = omega arith
collect-count (str s) v h = omega arith
collect-count (obj fs) v h = omega arith

count_old : Option Value → ℕ
count_old none = 0
count_old (some w) = count_value w

set_field-count :
    (key : String) (v : Value) (fs : Fields)
    → count_values (set_field key v fs) + count_old (get_field key fs)
      ≡ count_values fs + count_value v
unfolding count_values get_field set_field count_old
set_field-count key v end = omega arith
set_field-count key v (field j w fs) = elim (Bool-cases (str_eq key j)) [
  | inl e ↦ rw e (omega arith)
  | inr e ↦ rw e (omega (arith, set_field-count key v fs))
]

add_found-count :
    (key : String) (v : Value) (fs : Fields) (old : Option Value)
    → get_field key fs ≡ old
    → count_value v ≡ 1
    → count_values (set_field key (collect old v) fs) ≡ count_values fs + 1
unfolding count_old
add_found-count key v fs none e h = omega (arith, rw e at (set_field-count key v fs), h)
add_found-count key v fs (some w) e h =
    omega (arith, rw e at (set_field-count key (collect (some w) v) fs), collect-count w v h)

add_child-count :
    (key : String) (v : Value) (fs : Fields)
    → count_value v ≡ 1
    → count_values (add_child key v fs) ≡ count_values fs + 1
unfolding add_child
add_child-count key v fs h = add_found-count key v fs (get_field key fs) refl h

element_to_dict-count : (e : Element) → count_value (element_to_dict e) ≡ 1
unfolding element_to_dict count_value
element_to_dict-count (element tag content no_more) = refl
element_to_dict-count (element tag content (child e es)) = refl

add_children-count :
    (es : Elements) (fs : Fields)
    → count_values (add_children es fs) ≡ count_values fs + count_elements es
unfolding add_children count_elements
add_children-count no_more fs = omega arith
add_children-count (child e es) fs = omega (
  arith,
  add_children-count es (add_child (local_name (tag_of e)) (element_to_dict e) fs),
  add_child-count (local_name (tag_of e)) (element_to_dict e) fs (element_to_dict-count e),
)

fields_of : Value → Fields
fields_of (obj fs) = fs
fields_of v = end

no_values : count_values end ≡ 0
unfolding count_values
no_values = refl

-- The dictionary of an element with children has as many values as the element has children: of
-- several with one name none is lost.
element_to_dict_complete :
    (tag content : String) (children : Elements) (fs : Fields)
    → element_to_dict (element tag content children) ≡ obj fs
    → count_values fs ≡ count_elements children
unfolding element_to_dict fields_of
element_to_dict_complete tag content no_more fs h = absurd (cc h)
element_to_dict_complete tag content (child e es) fs h =
    omega (
      arith,
      add_children-count (child e es) end,
      no_values,
      ap (λ v. count_values (fields_of v)) h,
    )

-- ===== src/Partners/Xml.antt =====
-- `_element_to_dict` of app/integrations/universal_adapter.py and of
-- app/services/partner_webhooks.py, over the elements that the XML parser gives.
pub mod Laws
use Prim.Native.String.{len, slice}
use text.Mathlib.Text.{find?}
use thuso_wechat_ls.Base.{ℕ, ◌+◌, Option, none, some, String, if◌then◌else◌}
use thuso_wechat_ls.Base.Json.{
  Value, null, boolean, number, str, arr, obj, Items, nil, cons, Fields, end, field, get_field,
  set_field, append_item,
}

-- An element: its tag, its text (the empty one where there is none) and its children.
mutual
  pub data Element : Type 0 where
    element : (tag content : String) → (children : Elements) → Element

  pub data Elements : Type 0 where
    no_more : Elements
    child : Element → Elements → Elements

-- `child.tag.split("}", 1)[-1]`
abbrev pub local_name : String → String
local_name tag = elim (find? tag "}") [ none ↦ tag | some i ↦ slice tag (i + 1) (len tag) ]

abbrev pub tag_of : Element → String
tag_of (element tag content children) = tag

-- The values under one key: the first alone, further ones in a list.
abbrev pub collect : Option Value → Value → Value
collect none v = v
collect (some (arr l)) v = arr (append_item l v)
collect (some w) v = arr (cons w (cons v nil))

unfoldable pub add_child : String → Value → Fields → Fields
add_child key v result = set_field key (collect (get_field key result) v) result

unfoldable mutual
  unfolding add_child

  pub element_to_dict : Element → Value
  element_to_dict (element tag content no_more) = str content
  element_to_dict (element tag content (child e es)) = obj (add_children (child e es) end)

  pub add_children : Elements → Fields → Fields
  add_children no_more result = result
  add_children (child e es) result =
      add_children es (add_child (local_name (tag_of e)) (element_to_dict e) result)

-- ===== src/Partners/Template/Laws.antt =====
-- Templates and paths.
use text.Mathlib.Text.{◌==◌ as str_eq, starts_with}
use text.Mathlib.TextEquality.{eq_iff}
use thuso_wechat_ls.Base.{
  ◌≡◌, ◌≢◌, refl, ap, inl, inr, false, Option, none, some, List, [], ◌∷◌, String, ◌<>◌, Bool-cases,
  ok,
}
use thuso_wechat_ls.Base.Text.{split}
use thuso_wechat_ls.Base.Json.{
  Value, null, boolean, number, str, arr, obj, Items, nil, cons, Fields, end, field, Python,
  get_field, str_of,
}
use thuso_wechat_ls.Partners.Template.{
  walk, template_value, json_path, json_steps, render, render_items, render_fields, render_text,
  substitute,
}

walk_found :
    (py : Python) (path part : String) (parts : List String) (fs : Fields) (found : Option Value)
    → get_field part fs ≡ found
    → ((v : Value) → walk parts v ≢ null → json_steps py path parts v ≡ ok (walk parts v))
    → walk (part ∷ parts) (obj fs) ≢ null
    → json_steps py path (part ∷ parts) (obj fs) ≡ ok (walk (part ∷ parts) (obj fs))
unfolding walk json_steps
walk_found py path part parts fs none e ih h = absurd (h (rw (e, walk) refl))
walk_found py path part parts fs (some v) e ih h =
    rw (e, walk, json_steps) (ih v (λ n. h (rw (e, walk) n)))

json_steps-walk :
    (py : Python) (path : String) (parts : List String) (v : Value)
    → walk parts v ≢ null
    → json_steps py path parts v ≡ ok (walk parts v)
unfolding walk json_steps
json_steps-walk py path [] v h = refl
json_steps-walk py path (part ∷ parts) (obj fs) h =
    walk_found py path part parts fs (get_field part fs) refl (json_steps-walk py path parts) h
json_steps-walk py path (part ∷ parts) null h = absurd (h refl)
json_steps-walk py path (part ∷ parts) (boolean b) h = absurd (h refl)
json_steps-walk py path (part ∷ parts) (number n) h = absurd (h refl)
json_steps-walk py path (part ∷ parts) (str s) h = absurd (h refl)
json_steps-walk py path (part ∷ parts) (arr l) h = absurd (h refl)

-- A template value that is there is the value that the same path gives: templates and paths read
-- nested objects alike.
pub json_path-template_value :
    (py : Python) (key : String) (variables : Fields)
    → key ≢ ""
    → template_value key variables ≢ null
    → json_path py (obj variables) (some key) ≡ ok (template_value key variables)
unfolding template_value json_path
json_path-template_value py key variables ne h = elim (Bool-cases (str_eq key "")) [
  | inl e ↦ absurd (ne ((eq_iff key "").0 e))
  | inr e ↦ rw e (json_steps-walk py key (split b'.' key) (obj variables) h)
]

-- No text of the value holds a place for a variable.
module _ (py : Python) where
  abbrev pub IsPlainText : String → Type 0
  IsPlainText s =
      (starts_with s "{{" ≡ false)
      × ((key new : String) → py.replace s ("{{" <> key <> "}}") new ≡ s)

  mutual
    pub IsPlain : Value → Type 0
    IsPlain (str s) = IsPlainText s
    IsPlain (arr l) = ArePlainItems l
    IsPlain (obj fs) = ArePlainFields fs
    IsPlain null = Unit
    IsPlain (boolean b) = Unit
    IsPlain (number n) = Unit

    pub ArePlainItems : Items → Type 0
    ArePlainItems nil = Unit
    ArePlainItems (cons v l) = IsPlain v × ArePlainItems l

    pub ArePlainFields : Fields → Type 0
    ArePlainFields end = Unit
    ArePlainFields (field k v fs) = IsPlain v × ArePlainFields fs

  substitute_plain :
      (variables : Fields) (s : String) → IsPlainText s → substitute py variables s ≡ s
  unfolding substitute
  substitute_plain end s h = refl
  substitute_plain (field k v fs) s h = rw (h.1 k (str_of py v)) (substitute_plain fs s h)

  render_text_plain :
      (variables : Fields) (s : String) → IsPlainText s → render_text py variables s ≡ str s
  unfolding render_text
  render_text_plain variables s h = rw h.0 (ap str (substitute_plain variables s h))

  mutual
    unfolding render IsPlain

    render_value : (v : Value) (variables : Fields) → IsPlain v → render py v variables ≡ v
    render_value (str s) variables h = render_text_plain variables s h
    render_value (arr l) variables h = ap arr (render_list l variables h)
    render_value (obj fs) variables h = ap obj (render_object fs variables h)
    render_value null variables h = refl
    render_value (boolean b) variables h = refl
    render_value (number n) variables h = refl

    render_list :
        (l : Items) (variables : Fields) → ArePlainItems l → render_items py l variables ≡ l
    render_list nil variables h = refl
    render_list (cons v l) variables h =
        λ i. cons (render_value v variables h.0 i) (render_list l variables h.1 i)

    render_object :
        (fs : Fields) (variables : Fields) → ArePlainFields fs → render_fields py fs variables ≡ fs
    render_object end variables h = refl
    render_object (field k v fs) variables h =
        λ i. field k (render_value v variables h.0 i) (render_object fs variables h.1 i)

  -- A value that holds no place for a variable is rendered as it is, whatever the variables are.
  render_plain : (v : Value) (variables : Fields) → IsPlain v → render py v variables ≡ v
  render_plain v variables h = render_value v variables h

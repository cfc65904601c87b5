-- ===== src/Notification/Render/Body/Kept.antt =====
-- What a rendered body keeps of its template.
use autoform_panel.Notification.{includes_text}
use autoform_panel.Notification.Templates.{after_prefix}
use autoform_panel.Notification.Render.Body.{
  one_char, replace_from, replace_all, body_with, body_elements, body_fields, context_of,
  render_notification_body,
}
use autoform_panel.Js.Value.{
  null, undefined, num, bool, str, arr, obj, element, no_element, property, no_property, Elements,
  Properties, Value,
}
use autoform_panel.Prelude.{
  Bool-cases, ◌⊎◌, sym, String, ◌≡◌, refl, ap, inl, inr, Bool, true, false, ◌||◌, Option-cases,
}
use Prim.Native.String

-- A text with a placeholder of a body.
abbrev pub is_filled_in : String → Bool
is_filled_in s = includes_text "{{message}}" s || includes_text "{{type}}" s

unfoldable mutual
  -- A body that differs from its template only in the texts with a placeholder: its arrays and
  -- objects have the same parts under the same names in the same order.
  pub IsKept : Value → Value → Type 0
  IsKept (str s) (str t) = (is_filled_in s ≡ true) ⊎ (s ≡ t)
  IsKept (arr vs) (arr ws) = ElementsKept vs ws
  IsKept (obj fs) (obj gs) = FieldsKept fs gs
  IsKept (bool b) w = bool b ≡ w
  IsKept (num n) w = num n ≡ w
  IsKept null w = null ≡ w
  IsKept undefined w = undefined ≡ w
  IsKept _ _ = ⊥

  pub ElementsKept : Elements → Elements → Type 0
  ElementsKept no_element no_element = Unit {0}
  ElementsKept (element v vs) (element w ws) = IsKept v w × ElementsKept vs ws
  ElementsKept _ _ = ⊥

  pub FieldsKept : Properties → Properties → Type 0
  FieldsKept no_property no_property = Unit {0}
  FieldsKept (property k v fs) (property j w gs) = (k ≡ j) × IsKept v w × FieldsKept fs gs
  FieldsKept _ _ = ⊥

replace_from-unmatched :
    (pattern r before s : String)
    → includes_text pattern s ≡ false
    → replace_from pattern r 0 before s ≡ s
unfolding replace_from includes_text
replace_from-unmatched pattern r before String.[] h = refl
replace_from-unmatched pattern r before (String.◌∷◌ c s) h =
    let next = String.◌++◌ before (one_char c) in
    elim (Option-cases (after_prefix pattern (String.◌∷◌ c s))) [
      | inl e ↦
          rw (e, replace_from)
            (ap (String.◌∷◌ c) (replace_from-unmatched pattern r next s (rw e at h)))
      | inr (after, e) ↦ let broken = rw e at h in cc
    ]

replace_all-unmatched :
    (pattern r s : String) → includes_text pattern s ≡ false → replace_all pattern r s ≡ s
unfolding replace_all
replace_all-unmatched pattern r s h = replace_from-unmatched pattern r "" s h

text-unmatched :
    (message type s : String)
    → (is_filled_in s ≡ true)
      ⊎ (s ≡ replace_all "{{type}}" type (replace_all "{{message}}" message s))
text-unmatched message type s = elim (Bool-cases (includes_text "{{message}}" s)) [
  | inl e ↦ inl (rw e refl)
  | inr e ↦ elim (Bool-cases (includes_text "{{type}}" s)) [
    | inl f ↦ inl (rw (e, f) refl)
    | inr f ↦ inr (
        rw (replace_all-unmatched "{{message}}" message s e)
          (sym (replace_all-unmatched "{{type}}" type s f)))
  ]
]

module _ (context : Value) where
  mutual
    unfolding body_with IsKept ElementsKept FieldsKept

    body_with-IsKept : (v : Value) → IsKept v (body_with context v)
    body_with-IsKept (str s) = text-unmatched _ _ s
    body_with-IsKept (arr vs) = body_elements-ElementsKept vs
    body_with-IsKept (obj fs) = body_fields-FieldsKept fs
    body_with-IsKept (bool b) = refl
    body_with-IsKept (num n) = refl
    body_with-IsKept null = refl
    body_with-IsKept undefined = refl

    body_elements-ElementsKept : (vs : Elements) → ElementsKept vs (body_elements context vs)
    body_elements-ElementsKept no_element = tt
    body_elements-ElementsKept (element v vs) = (body_with-IsKept v, body_elements-ElementsKept vs)

    body_fields-FieldsKept : (fs : Properties) → FieldsKept fs (body_fields context fs)
    body_fields-FieldsKept no_property = tt
    body_fields-FieldsKept (property k v fs) = (refl, body_with-IsKept v, body_fields-FieldsKept fs)

-- A rendered body differs from its template only in the texts that hold {{message}} or {{type}}:
-- every other text, number, Boolean and null stays, and arrays and objects have the same parts
-- under the same names in the same order.
pub render_notification_body-IsKept :
    (template values : Value) → IsKept template (render_notification_body template values)
unfolding render_notification_body
render_notification_body-IsKept template values = body_with-IsKept (context_of values) template

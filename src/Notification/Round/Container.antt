-- ===== src/Notification/Round/Container.antt =====
-- The size of a body's template.
use autoform_panel.Notification.{bounded_string}
use autoform_panel.Stats.Distinct.{nil-append, unless-nil}
use autoform_panel.Notification.Round.{
  unless, at_field, container_fields, indexed, container_elements, utf16_length,
  validate_template_container, within_levels,
}
use autoform_panel.Js.Value.{
  null, undefined, num, bool, no_element, no_property, property, Properties, element, field_names,
  Elements, obj, items, str, arr, Value,
}
use autoform_panel.Prelude.{
  larger, larger-le, deeper-le, false, ◌++◌, ◌∷◌, leb→le, ℕ, suc, ◌+◌, ◌≤◌, String, ◌≡◌, inl, inr,
  List, [], arith, ltb, leb, Bool-cases, length,
}

unfoldable mutual
  -- How many arrays and objects the deepest value of a value lies in: a value without parts, which
  -- an empty array is, lies in none.
  pub height : Value → ℕ
  height (arr vs) = elements_height vs
  height (obj fs) = fields_height fs
  height _ = 0

  pub elements_height : Elements → ℕ
  elements_height no_element = 0
  elements_height (element v vs) = larger (suc (height v)) (elements_height vs)

  pub fields_height : Properties → ℕ
  fields_height no_property = 0
  fields_height (property k v fs) = larger (suc (height v)) (fields_height fs)

unfoldable mutual
  -- The greatest number of items of an array, or fields of an object.
  pub width : Value → ℕ
  width (arr vs) = larger (length (items vs)) (elements_width vs)
  width (obj fs) = larger (length (field_names fs)) (fields_width fs)
  width _ = 0

  elements_width : Elements → ℕ
  elements_width no_element = 0
  elements_width (element v vs) = larger (width v) (elements_width vs)

  fields_width : Properties → ℕ
  fields_width no_property = 0
  fields_width (property k v fs) = larger (width v) (fields_width fs)

unfoldable mutual
  -- The length of the longest text in it.
  pub longest : Value → ℕ
  longest (str s) = utf16_length s
  longest (arr vs) = elements_longest vs
  longest (obj fs) = fields_longest fs
  longest _ = 0

  elements_longest : Elements → ℕ
  elements_longest no_element = 0
  elements_longest (element v vs) = larger (longest v) (elements_longest vs)

  fields_longest : Properties → ℕ
  fields_longest no_property = 0
  fields_longest (property k v fs) = larger (longest v) (fields_longest fs)

within_levels-nil :
    (path : String) (d : ℕ) (es : List String) → within_levels path d es ≡ [] → (d ≤ 8) × (es ≡ [])
within_levels-nil path d es h = elim (Bool-cases (ltb 8 d)) [
  | inl e ↦ let broken = rw e at h in cc
  | inr e ↦ (ground (arith, e), rw e at h)
]

-- Below `d` levels, a value keeps the limits.
abbrev Fits : ℕ → ℕ → ℕ → ℕ → Type 0
Fits d high wide long = (d + high ≤ 8) × (wide ≤ 100) × (long ≤ 4000)

Fits-larger :
    (d h w l i x m : ℕ)
    → Fits (d + 1) h w l
    → Fits d i x m
    → Fits d (larger (suc h) i) (larger w x) (larger l m)
Fits-larger d h w l i x m (a, b, c) (e, f, g) =
    (deeper-le d h i 8 a e, larger-le w x 100 b f, larger-le l m 4000 c g)

mutual
  unfolding validate_template_container height width longest

  container-Fits :
      (v : Value) (path : String) (d : ℕ)
      → validate_template_container v path d ≡ []
      → Fits d (height v) (width v) (longest v)
  container-Fits (str s) path d h =
      let (deep, short) = within_levels-nil path d _ h in
      let few =
        unless-nil (leb (utf16_length s) 4000)
          (path ∷ " strings must not exceed 4000 characters" ∷ []) short in
      (omega arith, omega arith, ground (arith, few))
  container-Fits (arr vs) path d h =
      let (deep, inside) = within_levels-nil path d _ h in
      let (few, each) = nil-append _ _ inside in
      let (a, b, c) = elements-Fits vs path 0 d deep each in
      (
        a,
        larger-le _ _ 100
            (leb→le (length (items vs)) 100 (
              unless-nil (leb (length (items vs)) 100)
                (path ∷ " arrays must not contain more than 100 items" ∷ []) few))
            b,
        c,
      )
  container-Fits (obj fs) path d h =
      let (deep, inside) = within_levels-nil path d _ h in
      let (few, each) = nil-append _ _ inside in
      let (a, b, c) = fields-Fits fs path d deep each in
      (
        a,
        larger-le _ _ 100
            (leb→le (length (field_names fs)) 100 (
              unless-nil (leb (length (field_names fs)) 100)
                (path ∷ " objects must not contain more than 100 fields" ∷ []) few))
            b,
        c,
      )
  container-Fits undefined path d h =
      let (deep, inside) = within_levels-nil path d _ h in (omega arith, omega arith, omega arith)
  container-Fits null path d h =
      let (deep, inside) = within_levels-nil path d _ h in (omega arith, omega arith, omega arith)
  container-Fits (bool b) path d h =
      let (deep, inside) = within_levels-nil path d _ h in (omega arith, omega arith, omega arith)
  container-Fits (num n) path d h =
      let (deep, inside) = within_levels-nil path d _ h in (omega arith, omega arith, omega arith)

  elements-Fits :
      (vs : Elements) (path : String) (n d : ℕ)
      → d ≤ 8
      → container_elements vs path n (d + 1) ≡ []
      → Fits d (elements_height vs) (elements_width vs) (elements_longest vs)
  elements-Fits no_element path n d deep h = (omega arith, omega arith, omega arith)
  elements-Fits (element v vs) path n d deep h =
      let (first, rest) =
        nil-append (validate_template_container v (indexed path n) (d + 1))
          (container_elements vs path (n + 1) (d + 1)) h in
      Fits-larger d _ _ _ _ _ _ (container-Fits v (indexed path n) (d + 1) first)
        (elements-Fits vs path (n + 1) d deep rest)

  fields-Fits :
      (fs : Properties) (path : String) (d : ℕ)
      → d ≤ 8
      → container_fields fs path (d + 1) ≡ []
      → Fits d (fields_height fs) (fields_width fs) (fields_longest fs)
  fields-Fits no_property path d deep h = (omega arith, omega arith, omega arith)
  fields-Fits (property k v fs) path d deep h =
      let named =
        unless (bounded_string (str k) 128 false) (path ∷ " contains an invalid field name" ∷ []) in
      let (before, rest) =
        nil-append (named ++ validate_template_container v (at_field path k) (d + 1))
          (container_fields fs path (d + 1)) h in
      let (key, first) =
        nil-append named (validate_template_container v (at_field path k) (d + 1)) before in
      Fits-larger d _ _ _ _ _ _ (container-Fits v (at_field path k) (d + 1) first)
        (fields-Fits fs path d deep rest)

-- In a body template that is accepted no value lies inside more than eight arrays and objects, an
-- empty array or object counting as a value like any other; no array has more than 100 items, no
-- object more than 100 fields, and no text more than 4,000 UTF-16 units.
pub validate_template_container-bounded :
    (v : Value) (path : String)
    → validate_template_container v path 0 ≡ []
    → (height v ≤ 8) × (width v ≤ 100) × (longest v ≤ 4000)
validate_template_container-bounded v path h =
    let (a, b, c) = container-Fits v path 0 h in (omega arith, b, c)

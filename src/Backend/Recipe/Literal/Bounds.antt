-- ===== src/Backend/Recipe/Literal/Bounds.antt =====
-- The size of a literal.
use autoform_panel.Stats.Distinct.{unless-nil, nil-append}
use autoform_panel.Notification.Round.Container.{fields_height, elements_height, height}
use autoform_panel.Backend.Recipe.Literal.{
  member_name, at_field, indexed, literal_fields, field_names, literal_elements, items, property,
  frac, Properties, int, element, num, Elements, obj, bool, literal_errors, arr,
  validate_recipe_literal, at_literal,
}
use autoform_panel.Js.Value.{non_finite, undefined, null, no_element, no_property, Value}
use autoform_panel.Backend.{◌>>>◌, unless, str, report, Run}
use autoform_panel.Prelude.{
  sym, ap, ◌∙◌, ℕ, suc, ◌+◌, ◌≤◌, String, ◌≡◌, refl, inl, inr, true, List, [], ◌∷◌, arith, ltb, leb,
  ◌==◌, lt→ltb, leb→le, Bool-cases, deeper-le, length,
}

unfoldable mutual
  -- The values in a value, itself included.
  pub size : Value → ℕ
  size (arr vs) = suc (elements_size vs)
  size (obj fs) = suc (fields_size fs)
  size _ = 1

  elements_size : Elements → ℕ
  elements_size no_element = 0
  elements_size (element v vs) = size v + elements_size vs

  fields_size : Properties → ℕ
  fields_size no_property = 0
  fields_size (property k v fs) = size v + fields_size fs

-- `n` values were counted between two counts, at a depth with `l` levels below it.
abbrev Counts : ℕ → ℕ → ℕ → ℕ → ℕ → Type 0
Counts count depth n l last = (last ≡ count + n) × (last ≤ 256) × (depth + l ≤ 12)

at_literal-quiet :
    (path : String) (depth : ℕ) (inside : Run ℕ) (count : ℕ)
    → count ≤ 256
    → (at_literal path depth inside count).0 ≡ []
    → (count + 1 ≤ 256) × (depth ≤ 12) × (at_literal path depth inside count ≡ inside (count + 1))
at_literal-quiet path depth inside count few h = elim (Bool-cases (ltb 12 depth)) [
  | inl e ↦ let broken = rw e at h in cc
  | inr e ↦ elim (Bool-cases (ltb 256 (count + 1))) [
    | inl f ↦
        let full : (count + 1 == 257) ≡ true = ground (arith, f) in
        let broken = rw (e, f, full) at h in cc
    | inr f ↦ (ground (arith, f), ground (arith, e), rw (e, f) refl)
  ]
]

-- A value without parts.
leaf-Counts :
    (path : String) (depth count : ℕ) (errors : List String)
    → count ≤ 256
    → (at_literal path depth (report errors) count).0 ≡ []
    → Counts count depth 1 0 (at_literal path depth (report errors) count).1
leaf-Counts path depth count errors few h =
    let (more, shallow, same) = at_literal-quiet path depth (report errors) count few h in
    rw same (refl, more, omega arith)

mutual
  unfolding validate_recipe_literal size height

  literal-Counts :
      (v : Value) (path : String) (depth count : ℕ)
      → count ≤ 256
      → (validate_recipe_literal v path depth count).0 ≡ []
      → Counts count depth (size v) (height v) (validate_recipe_literal v path depth count).1
  literal-Counts null path depth count few h = leaf-Counts path depth count _ few h
  literal-Counts undefined path depth count few h = leaf-Counts path depth count _ few h
  literal-Counts (bool b) path depth count few h = leaf-Counts path depth count _ few h
  literal-Counts (num (int z)) path depth count few h = leaf-Counts path depth count _ few h
  literal-Counts (num (frac s)) path depth count few h = leaf-Counts path depth count _ few h
  literal-Counts (num non_finite) path depth count few h = leaf-Counts path depth count _ few h
  literal-Counts (str s) path depth count few h = leaf-Counts path depth count _ few h
  literal-Counts (arr vs) path depth count few h =
      let many = path ∷ " array must contain at most 256 items" ∷ [] in
      let limit = unless (leb (length (items vs)) 256) many in
      let inside = literal_elements vs path (depth + 1) 0 in
      let (more, shallow, same) =
        at_literal-quiet path depth (report limit >>> inside) count few h in
      let quiet : ((report limit >>> inside) (count + 1)).0 ≡ [] =
        sym (ap (λ (r : List String × ℕ). r.0) same) ∙ h in
      let (short, each) = nil-append limit (inside (count + 1)).0 quiet in
      let short₁ =
        leb→le (length (items vs)) 256 (unless-nil (leb (length (items vs)) 256) many short) in
      let (counted, within, deep) =
        elements-Counts vs path depth 0 (count + 1) shallow (omega arith) more each in
      rw same (omega arith, within, deep)
  literal-Counts (obj fs) path depth count few h =
      let many = path ∷ " object must contain at most 256 members" ∷ [] in
      let limit = unless (leb (length (field_names fs)) 256) many in
      let inside = literal_fields fs path (depth + 1) 0 in
      let (more, shallow, same) =
        at_literal-quiet path depth (report limit >>> inside) count few h in
      let quiet : ((report limit >>> inside) (count + 1)).0 ≡ [] =
        sym (ap (λ (r : List String × ℕ). r.0) same) ∙ h in
      let (short, each) = nil-append limit (inside (count + 1)).0 quiet in
      let short₁ =
        leb→le (length (field_names fs)) 256
          (unless-nil (leb (length (field_names fs)) 256) many short) in
      let (counted, within, deep) =
        fields-Counts fs path depth 0 (count + 1) shallow (omega arith) more each in
      rw same (omega arith, within, deep)

  elements-Counts :
      (vs : Elements) (path : String) (depth n count : ℕ)
      → depth ≤ 12
      → n + length (items vs) ≤ 256
      → count ≤ 256
      → (literal_elements vs path (depth + 1) n count).0 ≡ []
      → Counts count depth
          (elements_size vs)
          (elements_height vs)
          (literal_elements vs path (depth + 1) n count).1
  elements-Counts no_element path depth n count shallow short few h =
      (omega arith, few, omega arith)
  elements-Counts (element v vs) path depth n count shallow short few h =
      let seen : ltb n 256 ≡ true = lt→ltb n 256 (omega arith) in
      let one = validate_recipe_literal v (indexed path n) (depth + 1) in
      let others = literal_elements vs path (depth + 1) (n + 1) in
      let (first, rest) = nil-append (one count).0 (others (one count).1).0 (rw seen at h) in
      let (counted, within, deep) = literal-Counts v (indexed path n) (depth + 1) count few first in
      let (counted₁, within₁, deep₁) =
        elements-Counts vs path depth (n + 1) (one count).1 shallow (omega arith) within rest in
      rw seen (omega arith, within₁, deeper-le depth (height v) (elements_height vs) 12 deep deep₁)

  fields-Counts :
      (fs : Properties) (path : String) (depth n count : ℕ)
      → depth ≤ 12
      → n + length (field_names fs) ≤ 256
      → count ≤ 256
      → (literal_fields fs path (depth + 1) n count).0 ≡ []
      → Counts count depth
          (fields_size fs)
          (fields_height fs)
          (literal_fields fs path (depth + 1) n count).1
  fields-Counts no_property path depth n count shallow short few h = (omega arith, few, omega arith)
  fields-Counts (property k v fs) path depth n count shallow short few h =
      let seen : ltb n 256 ≡ true = lt→ltb n 256 (omega arith) in
      let one = validate_recipe_literal v (at_field path k) (depth + 1) in
      let others = literal_fields fs path (depth + 1) (n + 1) in
      let (named, more) = nil-append (member_name path k) _ (rw seen at h) in
      let (first, rest) = nil-append (one count).0 (others (one count).1).0 more in
      let (counted, within, deep) =
        literal-Counts v (at_field path k) (depth + 1) count few first in
      let (counted₁, within₁, deep₁) =
        fields-Counts fs path depth (n + 1) (one count).1 shallow (omega arith) within rest in
      rw seen (omega arith, within₁, deeper-le depth (height v) (fields_height fs) 12 deep deep₁)

-- A literal that is accepted has at most 256 values in it, itself included, and none of them lies
-- inside more than twelve arrays and objects, an empty one counting as a value like any other.
pub validate_recipe_literal-bounded :
    (v : Value) (path : String) → literal_errors v path ≡ [] → (size v ≤ 256) × (height v ≤ 12)
validate_recipe_literal-bounded v path h =
    let (counted, within, deep) = literal-Counts v path 0 0 (omega arith) h in
    (omega arith, omega arith)

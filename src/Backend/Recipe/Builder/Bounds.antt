-- ===== src/Backend/Recipe/Builder/Bounds.antt =====
-- The size of a builder.
use autoform_panel.Stats.Distinct.{unless-nil, nil-append}
use autoform_panel.Pairing.Messages.Keys.{is_str-eq}
use autoform_panel.Backend.{str, unless, allow_names, Run}
use autoform_panel.Js.Value.{null, undefined, no_property, Value, Properties}
use autoform_panel.Backend.Recipe.Builder.{
  new_budget, member_id, glue, member_fields, arr, num, bool, members_of, field_names,
  builder_members, by_type, validate_recipe_builder, property, lookup, is_str, obj, leaf_errors,
  at_builder, Budget,
}
use autoform_panel.Prelude.{
  larger, deeper-le, true, ◌∷◌, ◌==◌, lt→ltb, leb→le, Option-cases, length, ℕ, suc, ◌+◌, ◌≤◌,
  String, ◌≡◌, refl, inl, inr, false, some, List, [], arith, str_eq, ltb, leb, if◌then◌else◌,
  Bool-cases,
}

unfoldable mutual
  -- The builders in a value: itself and, if it builds an object, those of its members.
  pub nodes : Value → ℕ
  nodes (obj fs) = suc (if is_str (lookup "type" fs) "object" then members_nodes fs else 0)
  nodes _ = 0

  members_nodes : Properties → ℕ
  members_nodes no_property = 0
  members_nodes (property k v fs) = if str_eq k "members" then own_nodes v else members_nodes fs

  own_nodes : Value → ℕ
  own_nodes (obj fs) = fields_nodes fs
  own_nodes _ = 0

  pub fields_nodes : Properties → ℕ
  fields_nodes no_property = 0
  fields_nodes (property k v fs) = nodes v + fields_nodes fs

unfoldable mutual
  -- The levels of builders below a builder.
  pub levels : Value → ℕ
  levels (obj fs) = if is_str (lookup "type" fs) "object" then members_levels fs else 0
  levels _ = 0

  members_levels : Properties → ℕ
  members_levels no_property = 0
  members_levels (property k v fs) = if str_eq k "members" then own_levels v else members_levels fs

  own_levels : Value → ℕ
  own_levels (obj fs) = fields_levels fs
  own_levels _ = 0

  fields_levels : Properties → ℕ
  fields_levels no_property = 0
  fields_levels (property k v fs) = larger (suc (levels v)) (fields_levels fs)

-- Nothing was reported, and the count is within its limit.
abbrev pub Fine : Budget → Type 0
Fine b = (b.reported ≡ false) × (b.count ≤ 512)

-- `n` nodes were counted between two budgets, at a depth with `l` levels below it.
abbrev pub Counts : Budget → ℕ → ℕ → ℕ → Budget → Type 0
Counts b depth n l last = (last.count ≡ b.count + n) × Fine last × (depth + l ≤ 8)

module _ (path : String) (depth : ℕ) (inside : Run Budget) (b : Budget) where
  at_builder-quiet :
      Fine b
      → (at_builder path depth inside b).0 ≡ []
      → (b.count + 1 ≤ 512)
        × (depth ≤ 8)
        × (at_builder path depth inside b ≡ inside (record b { count = b.count + 1 }))
  at_builder-quiet (unreported, few) h = elim (Bool-cases (ltb 512 (b.count + 1))) [
    | inl e ↦ let broken = rw (e, unreported) at h in cc
    | inr e ↦ elim (Bool-cases (ltb 8 depth)) [
      | inl f ↦ let broken = rw (e, f) at h in cc
      | inr f ↦ (ground (arith, e), ground (arith, f), rw (e, f) refl)
    ]
  ]

module _ (roots : List String) (path : String) (fs : Properties) where
  leaf_errors-type :
      (errors : List String)
      → leaf_errors roots path fs ≡ some errors
      → is_str (lookup "type" fs) "object" ≡ false
  leaf_errors-type errors h = elim (Bool-cases (is_str (lookup "type" fs) "literal")) [
    | inl e ↦ rw (is_str-eq (lookup "type" fs) "literal" e) refl
    | inr e ↦ elim (Bool-cases (is_str (lookup "type" fs) "present")) [
      | inl f ↦ rw (is_str-eq (lookup "type" fs) "present" f) refl
      | inr f ↦ elim (Bool-cases (is_str (lookup "type" fs) "firstNonEmpty")) [
        | inl g ↦ rw (is_str-eq (lookup "type" fs) "firstNonEmpty" g) refl
        | inr g ↦ elim (Bool-cases (is_str (lookup "type" fs) "integer")) [
          | inl i ↦ rw (is_str-eq (lookup "type" fs) "integer" i) refl
          | inr i ↦ let broken = rw (e, f, g, i) at h in cc
        ]
      ]
    ]
  ]

module _ (roots : List String) where
  mutual
    unfolding validate_recipe_builder nodes levels

    pub builder-Counts :
        (v : Value) (path : String) (depth : ℕ) (b : Budget)
        → Fine b
        → (validate_recipe_builder roots v path depth b).0 ≡ []
        → Counts b depth (nodes v) (levels v) (validate_recipe_builder roots v path depth b).1
    builder-Counts (obj fs) path depth b fine h =
        let inside =
          by_type roots path fs (leaf_errors roots path fs)
            (builder_members roots fs path (depth + 1)) in
        let counted : Budget = record b { count = b.count + 1 } in
        let (few, shallow, same) = at_builder-quiet path depth inside b fine h in
        let quiet : (inside counted).0 ≡ [] = rw (← same) h in
        elim (Option-cases (leaf_errors roots path fs)) [
          | inr (errors, e) ↦
              let leaf = leaf_errors-type roots path fs errors e in
              rw (same, e, leaf) (omega arith, (fine.0, omega arith), omega arith)
          | inl e ↦ elim (Bool-cases (is_str (lookup "type" fs) "object")) [
            | inr f ↦ let broken = rw (e, f) at quiet in cc
            | inl f ↦
                let names = allow_names path ("type" ∷ "members" ∷ []) (field_names fs) in
                let (allowed, each) = nil-append names _ (rw (e, f) at quiet) in
                let (count, kept, deep) =
                  members-Counts fs path depth counted shallow (fine.0, few) each in
                rw (same, e, f) (omega arith, kept, deep)
          ]
        ]
    builder-Counts undefined path depth b fine h = cc
    builder-Counts null path depth b fine h = cc
    builder-Counts (bool t) path depth b fine h = cc
    builder-Counts (num n) path depth b fine h = cc
    builder-Counts (str s) path depth b fine h = cc
    builder-Counts (arr vs) path depth b fine h = cc

    members-Counts :
        (fs : Properties) (path : String) (depth : ℕ) (b : Budget)
        → depth ≤ 8
        → Fine b
        → (builder_members roots fs path (depth + 1) b).0 ≡ []
        → Counts b depth
            (members_nodes fs)
            (members_levels fs)
            (builder_members roots fs path (depth + 1) b).1
    members-Counts no_property path depth b shallow fine h = cc
    members-Counts (property k v fs) path depth b shallow fine h =
        elim (Bool-cases (str_eq k "members")) [
          | inl e ↦ rw e (own-Counts v path depth b shallow fine (rw e at h))
          | inr e ↦ rw e (members-Counts fs path depth b shallow fine (rw e at h))
        ]

    own-Counts :
        (v : Value) (path : String) (depth : ℕ) (b : Budget)
        → depth ≤ 8
        → Fine b
        → (members_of roots v path (depth + 1) b).0 ≡ []
        → Counts b depth (own_nodes v) (own_levels v) (members_of roots v path (depth + 1) b).1
    own-Counts (obj fs) path depth b shallow fine h =
        elim (Bool-cases (length (field_names fs) == 0)) [
          | inl e ↦ let broken = rw e at h in cc
          | inr e ↦
              let many = path ∷ ".members must contain at most 32 members" ∷ [] in
              let (few, each) =
                nil-append (unless (leb (length (field_names fs)) 32) many) _ (rw e at h) in
              let within = leb→le (length (field_names fs)) 32 (unless-nil _ many few) in
              rw e (fields-Counts fs path depth 0 b shallow (omega arith) fine each)
        ]
    own-Counts undefined path depth b shallow fine h = cc
    own-Counts null path depth b shallow fine h = cc
    own-Counts (bool t) path depth b shallow fine h = cc
    own-Counts (num n) path depth b shallow fine h = cc
    own-Counts (str s) path depth b shallow fine h = cc
    own-Counts (arr vs) path depth b shallow fine h = cc

    fields-Counts :
        (fs : Properties) (path : String) (depth n : ℕ) (b : Budget)
        → depth ≤ 8
        → n + length (field_names fs) ≤ 32
        → Fine b
        → (member_fields roots fs path (depth + 1) n b).0 ≡ []
        → Counts b depth
            (fields_nodes fs)
            (fields_levels fs)
            (member_fields roots fs path (depth + 1) n b).1
    fields-Counts no_property path depth n b shallow within fine h =
        (omega arith, fine, omega arith)
    fields-Counts (property k v fs) path depth n b shallow within fine h =
        let seen : ltb n 32 ≡ true = lt→ltb n 32 (omega arith) in
        let item = glue (path ∷ ".members." ∷ k ∷ []) in
        let one = validate_recipe_builder roots v item (depth + 1) in
        let others = member_fields roots fs path (depth + 1) (n + 1) in
        let (named, rest) = nil-append (member_id path k) _ (rw seen at h) in
        let (first, more) = nil-append (one b).0 (others (one b).1).0 rest in
        let (count, kept, deep) = builder-Counts v item (depth + 1) b fine first in
        let (count₁, kept₁, deep₁) =
          fields-Counts fs path depth (n + 1) (one b).1 shallow (omega arith) kept more in
        rw seen (omega arith, kept₁, deeper-le depth (levels v) (fields_levels fs) 8 deep deep₁)

  -- A builder that is accepted under a fresh budget has at most 512 builders in it, in at most eight
  -- levels below it, and the budget has counted each of them.
  pub validate_recipe_builder-bounded :
      (v : Value) (path : String)
      → (validate_recipe_builder roots v path 0 new_budget).0 ≡ []
      → (nodes v ≤ 512)
        × (levels v ≤ 8)
        × ((validate_recipe_builder roots v path 0 new_budget).1.count ≡ nodes v)
  validate_recipe_builder-bounded v path h =
      let (count, kept, deep) = builder-Counts v path 0 new_budget (refl, omega arith) h in
      (omega arith, omega arith, omega arith)

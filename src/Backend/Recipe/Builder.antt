-- ===== src/Backend/Recipe/Builder.antt =====
-- validateRecipeBuilder of api/backend-adapter-recipe-dsl.js; a run counts the nodes.
pub mod Bounds
use autoform_panel.Backend.Recipe.Literal.{literal_errors}
use autoform_panel.Backend.Recipe.{
  strict_eq, at_field, items, among, is_str, int, indexed, field_names, element, bool,
  validate_recipe_path, recipe_id,
}
use autoform_panel.Stats.{glue, unless}
use autoform_panel.Js.Text.{codes}
use autoform_panel.Backend.{◌>>>◌, allow_names, str, report, contains, Run}
use autoform_panel.Js.Value.{
  null, undefined, no_property, negsuc, max_safe_integer, property, pos, obj, num, lookup, arr,
  Value, Properties,
}
use autoform_panel.Prelude.{
  code, ℕ, zero, suc, ◌+◌, String, Bool, true, false, not, ◌&&◌, Option, none, some, List, [], ◌∷◌,
  ◌++◌, str_eq, ltb, leb, ◌==◌, if◌then◌else◌, length, any,
}
use Prim.Native.String

-- `budget`
pub record Budget : Type 0 where
  pub count : ℕ
  pub reported : Bool

abbrev pub new_budget : Budget
new_budget = record { count = 0; reported = false }

-- The tests of the budget and of the depth; `inside` runs if they hold.
abbrev pub at_builder : String → ℕ → Run Budget → Run Budget
at_builder path depth inside b =
    let counted : Budget = record b { count = b.count + 1 } in
    if ltb 512 (b.count + 1)
    then (
      unless b.reported (path ∷ " exceeds maximum builder node count 512" ∷ []),
      record counted { reported = true },
    )
    else if ltb 8 depth
    then (unless false (path ∷ " exceeds maximum builder depth 8" ∷ []), counted)
    else inside counted

abbrev required_literal : String → Properties → String → List String
required_literal path fs key =
    if contains (field_names fs) key
    then literal_errors (lookup key fs) (at_field path key)
    else unless false (at_field path key ∷ " is required" ∷ [])

abbrev is_safe_integer : Value → Bool
is_safe_integer (num (int (pos n))) = leb n max_safe_integer
is_safe_integer (num (int (negsuc n))) = ltb n max_safe_integer
is_safe_integer _ = false

abbrev has_dot : String → Bool
has_dot s = any (λ (c : ℕ). c == 46) (codes s)

abbrev pub member_id : String → String → List String
member_id path key =
    unless (recipe_id (str key) && not (has_dot key))
      (path ∷ ".members." ∷ key ∷ " is not a safe bounded member name" ∷ [])

module _ (roots : List String) where
  abbrev paths_from : String → ℕ → List Value → ℕ → List Value → List String
  paths_from path left [] n seen = []
  paths_from path zero (v ∷ vs) n seen = []
  paths_from path (suc left) (v ∷ vs) n seen =
      validate_recipe_path roots v (indexed path n)
      ++ unless (not (among strict_eq seen v)) (indexed path n ∷ " must not be duplicated" ∷ [])
      ++ paths_from path left vs (n + 1) (v ∷ seen)

  abbrev builder_paths : String → Value → List String
  builder_paths path (arr (element v vs)) =
      unless (leb (length (v ∷ items vs)) 16) (path ∷ " must contain at most 16 items" ∷ [])
      ++ paths_from path 16 (v ∷ items vs) 0 []
  builder_paths path _ = unless false (path ∷ " must be a non-empty array" ∷ [])

  -- The errors of a builder that has no members, by its type; none of any other type.
  abbrev pub leaf_errors : String → Properties → Option (List String)
  leaf_errors path fs =
      let type = lookup "type" fs in
      if is_str type "literal"
      then some (
          allow_names path ("type" ∷ "value" ∷ []) (field_names fs)
          ++ required_literal path fs "value")
      else if is_str type "present"
      then some (
          allow_names path ("type" ∷ "path" ∷ "fallbackIfMissing" ∷ []) (field_names fs)
          ++ validate_recipe_path roots (lookup "path" fs) (at_field path "path")
          ++ required_literal path fs "fallbackIfMissing")
      else if is_str type "firstNonEmpty"
      then some (
          allow_names path ("type" ∷ "paths" ∷ []) (field_names fs)
          ++ builder_paths (at_field path "paths") (lookup "paths" fs))
      else if is_str type "integer"
      then some (
          allow_names path ("type" ∷ "path" ∷ "default" ∷ []) (field_names fs)
          ++ validate_recipe_path roots (lookup "path" fs) (at_field path "path")
          ++ unless (is_safe_integer (lookup "default" fs))
              (path ∷ ".default must be a safe integer" ∷ []))
      else none

  abbrev pub by_type : String → Properties → Option (List String) → Run Budget → Run Budget
  by_type path fs (some errors) members = report errors
  by_type path fs none members =
      if is_str (lookup "type" fs) "object"
      then report (allow_names path ("type" ∷ "members" ∷ []) (field_names fs)) >>> members
      else report (
          unless false
            (path ∷ ".type must be one of: literal, present, firstNonEmpty, integer, object" ∷ []))

  abbrev pub no_members : String → Run Budget
  no_members path = report (unless false (path ∷ ".members must be a non-empty object" ∷ []))

  unfoldable mutual
    -- validateRecipeBuilder
    pub validate_recipe_builder : Value → String → ℕ → Run Budget
    validate_recipe_builder (obj fs) path depth =
        at_builder path depth
          (by_type path fs (leaf_errors path fs) (builder_members fs path (depth + 1)))
    validate_recipe_builder undefined path depth =
        report (unless false (path ∷ " must be a builder object" ∷ []))
    validate_recipe_builder null path depth =
        report (unless false (path ∷ " must be a builder object" ∷ []))
    validate_recipe_builder (bool b) path depth =
        report (unless false (path ∷ " must be a builder object" ∷ []))
    validate_recipe_builder (num n) path depth =
        report (unless false (path ∷ " must be a builder object" ∷ []))
    validate_recipe_builder (str s) path depth =
        report (unless false (path ∷ " must be a builder object" ∷ []))
    validate_recipe_builder (arr vs) path depth =
        report (unless false (path ∷ " must be a builder object" ∷ []))

    -- The members of a builder, which stand in the first property of that name.
    pub builder_members : Properties → String → ℕ → Run Budget
    builder_members no_property path depth = no_members path
    builder_members (property k v fs) path depth =
        if str_eq k "members" then members_of v path depth else builder_members fs path depth

    pub members_of : Value → String → ℕ → Run Budget
    members_of (obj fs) path depth =
        if length (field_names fs) == 0
        then no_members path
        else report (
            unless (leb (length (field_names fs)) 32)
              (path ∷ ".members must contain at most 32 members" ∷ []))
          >>> member_fields fs path depth 0
    members_of _ path depth = no_members path

    -- The members from the `n`th on, of which the first 32 are looked at.
    pub member_fields : Properties → String → ℕ → ℕ → Run Budget
    member_fields no_property path depth n = report []
    member_fields (property k v fs) path depth n =
        if ltb n 32
        then report (member_id path k)
          >>> validate_recipe_builder v (glue (path ∷ ".members." ∷ k ∷ [])) depth
          >>> member_fields fs path depth (n + 1)
        else report []

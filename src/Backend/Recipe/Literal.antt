-- ===== src/Backend/Recipe/Literal.antt =====
-- validateRecipeLiteral of api/backend-adapter-recipe-dsl.js; a run counts the items.
pub mod Bounds
use autoform_panel.Backend.Recipe.{
  at_field, Properties, indexed, element, field_names, obj, items, arr, utf16_length, frac, int,
  num, bool, recipe_id,
}
use autoform_panel.Stats.{unless}
use autoform_panel.Js.Value.{
  no_element, non_finite, undefined, null, no_property, property, Elements, Value,
}
use autoform_panel.Backend.{◌>>>◌, str, report, Run}
use autoform_panel.Prelude.{
  ℕ, ◌+◌, String, false, not, List, [], ◌∷◌, ltb, leb, ◌==◌, if◌then◌else◌, length,
}

-- The tests of depth and of the number of items; `inside` runs if they hold.
abbrev pub at_literal : String → ℕ → Run ℕ → Run ℕ
at_literal path depth inside count =
    if ltb 12 depth
    then (unless false (path ∷ " exceeds maximum literal depth 12" ∷ []), count)
    else if ltb 256 (count + 1)
    then (
      unless (not (count + 1 == 257)) (path ∷ " exceeds maximum literal size 256" ∷ []),
      count + 1,
    )
    else inside (count + 1)

abbrev pub member_name : String → String → List String
member_name path key =
    unless (recipe_id (str key)) (path ∷ "." ∷ key ∷ " is not a safe bounded member name" ∷ [])

unfoldable mutual
  -- validateRecipeLiteral
  pub validate_recipe_literal : Value → String → ℕ → Run ℕ
  validate_recipe_literal null path depth = at_literal path depth (report [])
  validate_recipe_literal (bool b) path depth = at_literal path depth (report [])
  validate_recipe_literal (num non_finite) path depth =
      at_literal path depth
        (report (unless false (path ∷ " must contain only finite JSON numbers" ∷ [])))
  validate_recipe_literal (num (int z)) path depth = at_literal path depth (report [])
  validate_recipe_literal (num (frac s)) path depth = at_literal path depth (report [])
  validate_recipe_literal (str s) path depth = at_literal path depth (
      report (
        unless (leb (utf16_length s) 4096)
          (path ∷ " string must contain at most 4096 characters" ∷ [])))
  validate_recipe_literal (arr vs) path depth = at_literal path depth (
      report
        (unless (leb (length (items vs)) 256) (path ∷ " array must contain at most 256 items" ∷ []))
      >>> literal_elements vs path (depth + 1) 0)
  validate_recipe_literal (obj fs) path depth = at_literal path depth (
      report (
        unless (leb (length (field_names fs)) 256)
          (path ∷ " object must contain at most 256 members" ∷ []))
      >>> literal_fields fs path (depth + 1) 0)
  validate_recipe_literal undefined path depth =
      at_literal path depth (report (unless false (path ∷ " must be JSON data" ∷ [])))

  -- The elements from index `n` on, of which the first 256 are looked at.
  pub literal_elements : Elements → String → ℕ → ℕ → Run ℕ
  literal_elements no_element path depth n = report []
  literal_elements (element v vs) path depth n =
      if ltb n 256
      then validate_recipe_literal v (indexed path n) depth
        >>> literal_elements vs path depth (n + 1)
      else report []

  pub literal_fields : Properties → String → ℕ → ℕ → Run ℕ
  literal_fields no_property path depth n = report []
  literal_fields (property k v fs) path depth n =
      if ltb n 256
      then report (member_name path k)
        >>> validate_recipe_literal v (at_field path k) depth
        >>> literal_fields fs path depth (n + 1)
      else report []

-- A call without the last two arguments.
abbrev pub literal_errors : Value → String → List String
literal_errors v path = (validate_recipe_literal v path 0 0).0

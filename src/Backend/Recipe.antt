-- ===== src/Backend/Recipe.antt =====
-- api/backend-adapter-recipe-dsl.js: names, paths, predicates and selectors.
pub mod Literal
pub mod Builder
pub mod Resolver
use autoform_panel.Notification.Round.{is_bool}
use autoform_panel.Backend.{
  selector_attributes, search_text_attributes, path_keys, allow_names, text_among,
}
use autoform_panel.Stats.{among, at_field, unless, indexed}
use autoform_panel.Js.Text.{split_dots, utf16_length, is_word, is_letter, codes}
use autoform_panel.Js.Value.{
  null, strict_eq, frac, int, get, field_names, num, lookup, items, is_str, element, str, obj,
  has_own, bool, arr, contains, Value, Properties,
}
use autoform_panel.Prelude.{
  code, ℕ, zero, suc, ◌+◌, ◌-◌, ◌*◌, String, Bool, true, false, not, ◌&&◌, ◌||◌, Option, some, List,
  [], ◌∷◌, ◌++◌, str_eq, ltb, leb, ◌==◌, if◌then◌else◌, length, all, any,
}
use Prim.Native.String

abbrev forbidden : List String
forbidden = "__proto__" ∷ "prototype" ∷ "constructor" ∷ []

abbrev is_id_char : ℕ → Bool
is_id_char c = is_word c || c == 46 || c == 45

abbrev id_codes : List ℕ → Bool
id_codes [] = false
id_codes (c ∷ cs) = is_letter c && all is_id_char cs

abbrev is_id_text : String → Bool
is_id_text s = leb (utf16_length s) 128 && id_codes (codes s) && not (contains forbidden s)

-- recipeId; a text of the pattern is not blank.
unfoldable pub recipe_id : Value → Bool
recipe_id (str s) = is_id_text s
recipe_id _ = false

-- addRecipeId
abbrev pub recipe_id_errors : Value → String → List String
recipe_id_errors v path =
    unless (recipe_id v)
      (path ∷ " must match [A-Za-z][A-Za-z0-9_.-]* and contain at most 128 characters" ∷ [])

abbrev attribute_items : String → List Value → ℕ → List Value → List String
attribute_items path [] n seen = []
attribute_items path (v ∷ vs) n seen =
    (if text_among search_text_attributes v
      then unless (not (among strict_eq seen v)) (indexed path n ∷ " must not be duplicated" ∷ [])
      else unless false (
          indexed path n
          ∷ " must be one of: id, type, parentType, typeName, title, englishTitle"
          ∷ []))
    ++ attribute_items path vs (n + 1) (v ∷ seen)

-- addBoundedAttributeArray
unfoldable pub attribute_array : Value → String → List String
attribute_array (arr vs) path =
    unless (leb (length (items vs)) 6) (path ∷ " must contain at most 6 items" ∷ [])
    ++ attribute_items path (items vs) 0 []
attribute_array _ path = unless false (path ∷ " must be an array" ∷ [])

abbrev segment_codes : List ℕ → Bool
segment_codes [] = false
segment_codes (c ∷ cs) = is_letter c && all (λ (d : ℕ). is_word d || d == 45) cs

abbrev is_segment : String → Bool
is_segment s = segment_codes (codes s) && not (contains forbidden s)

abbrev mapped_path : List String → String → List String → List String
mapped_path roots path (root ∷ key ∷ more) =
    if contains roots root
      && leb (length (root ∷ key ∷ more)) 16
      && all is_segment (root ∷ key ∷ more)
    then unless (contains (path_keys root) key)
        (path ∷ " must reference a supported " ∷ root ∷ " attribute" ∷ [])
    else unless false (
        path ∷ " must be a bounded mapped path rooted at template, field, option, input or identity"
        ∷ [])
mapped_path roots path _ = unless false (
    path ∷ " must be a bounded mapped path rooted at template, field, option, input or identity"
    ∷ [])

-- validateRecipePath
unfoldable pub validate_recipe_path : List String → Value → String → List String
validate_recipe_path roots (str s) path =
    if not (str_eq s "") && leb (utf16_length s) 512
    then mapped_path roots path (split_dots s)
    else unless false (path ∷ " must be a non-empty path of at most 512 characters" ∷ [])
validate_recipe_path roots _ path =
    unless false (path ∷ " must be a non-empty path of at most 512 characters" ∷ [])

-- The operators of a predicate.
pub data Operator : Type 0 where
  equals_any : Operator
  contains_any : Operator
  present : Operator

abbrev operator_name : Operator → String
operator_name equals_any = "equalsAny"
operator_name contains_any = "containsAny"
operator_name present = "present"

abbrev operator_if : Value → Operator → List Operator
operator_if predicate o = if has_own predicate (operator_name o) then o ∷ [] else []

-- The operators that a predicate has.
abbrev pub operators : Value → List Operator
operators predicate =
    operator_if predicate equals_any
    ++ operator_if predicate contains_any
    ++ operator_if predicate present

abbrev is_short_scalar : Value → Bool
is_short_scalar null = true
is_short_scalar (bool b) = true
is_short_scalar (num (int z)) = true
is_short_scalar (num (frac s)) = true
is_short_scalar (str s) = leb (utf16_length s) 4096
is_short_scalar _ = false

abbrev is_search_text : Value → Bool
is_search_text (str s) = not (str_eq s "") && leb (utf16_length s) 4096
is_search_text _ = false

abbrev operand_error : Operator → String → Value → List String
operand_error contains_any path v =
    unless (is_search_text v) (path ∷ " must be a non-empty string of at most 4096 characters" ∷ [])
operand_error _ path v = unless (is_short_scalar v) (path ∷ " must be a bounded JSON scalar" ∷ [])

abbrev operand_errors : Operator → String → List Value → ℕ → List String
operand_errors o path [] n = []
operand_errors o path (v ∷ vs) n =
    operand_error o (indexed path n) v ++ operand_errors o path vs (n + 1)

abbrev unknown_kinds : List String → String → List Value → ℕ → List String
unknown_kinds kinds path [] n = []
unknown_kinds kinds path (v ∷ vs) n =
    unless (text_among kinds v) (indexed path n ∷ " must reference kindSelectors.kind" ∷ [])
    ++ unknown_kinds kinds path vs (n + 1)

abbrev kind_errors : Option (List String) → Operator → String → List Value → List String
kind_errors known contains_any path vs =
    unless false (path ∷ " is not supported for attribute=kind" ∷ [])
kind_errors (some kinds) equals_any path vs = unknown_kinds kinds path vs 0
kind_errors known o path vs = []

abbrev operands : Option (List String) → Operator → String → Bool → Value → List String
operands known o path of_kind (arr (element v vs)) =
    unless (leb (length (v ∷ items vs)) 16) (path ∷ " must contain at most 16 items" ∷ [])
    ++ operand_errors o path (v ∷ items vs) 0
    ++ (if of_kind then kind_errors known o path (v ∷ items vs) else [])
operands known o path of_kind _ = unless false (path ∷ " must be a non-empty array" ∷ [])

abbrev by_operator : Option (List String) → String → Properties → List Operator → List String
by_operator known path fs (present ∷ []) =
    unless (is_bool (lookup "present" fs)) (path ∷ ".present must be a boolean" ∷ [])
by_operator known path fs (o ∷ []) =
    operands known o (at_field path (operator_name o)) (is_str (lookup "attribute" fs) "kind")
      (lookup (operator_name o) fs)
by_operator known path fs _ =
    unless false (path ∷ " must contain exactly one of: equalsAny, containsAny, present" ∷ [])

-- validateRecipePredicate; `known` is the set of kinds, if there is one.
unfoldable pub validate_recipe_predicate : Option (List String) → Value → String → List String
validate_recipe_predicate known (obj fs) path =
    allow_names path ("attribute" ∷ "caseSensitive" ∷ "equalsAny" ∷ "containsAny" ∷ "present" ∷ [])
      (field_names fs)
    ++ unless (text_among selector_attributes (lookup "attribute" fs)) (
        path
        ∷ ".attribute must be one of: id, kind, type, parentType, typeName, title, englishTitle, searchText, required, visible, hasOptions"
        ∷ [])
    ++ unless (is_bool (lookup "caseSensitive" fs)) (path ∷ ".caseSensitive must be a boolean" ∷ [])
    ++ by_operator known path fs (operators (obj fs))
validate_recipe_predicate known _ path = unless false (path ∷ " must be an object" ∷ [])

module _ (known : Option (List String)) (path : String) where
  -- `predicates.slice(0, 16)`, with what is left of it
  abbrev predicates_from : ℕ → List Value → ℕ → List String
  predicates_from left [] n = []
  predicates_from zero (v ∷ vs) n = []
  predicates_from (suc left) (v ∷ vs) n =
      validate_recipe_predicate known v (indexed path n) ++ predicates_from left vs (n + 1)

  -- The errors of one list of predicates, and how many there are.
  abbrev predicate_list : Value → List String × ℕ
  predicate_list (arr (element v vs)) = (
    unless (leb (length (v ∷ items vs)) 16) (path ∷ " must contain at most 16 predicates" ∷ [])
        ++ predicates_from 16 (v ∷ items vs) 0,
    length (v ∷ items vs),
  )
  predicate_list _ = (unless false (path ∷ " must be a non-empty array" ∷ []), 0)

abbrev own_predicates : Option (List String) → Value → String → String → List String × ℕ
own_predicates known selector path key =
    if has_own selector key
    then predicate_list known (at_field path key) (get selector key)
    else ([], 0)

-- validateRecipeSelector
unfoldable pub validate_recipe_selector : Option (List String) → Value → String → List String
validate_recipe_selector known (obj fs) path =
    let (all_of, m) = own_predicates known (obj fs) path "allOf" in
    let (any_of, n) = own_predicates known (obj fs) path "anyOf" in
    let (none_of, k) = own_predicates known (obj fs) path "noneOf" in
    allow_names path ("allOf" ∷ "anyOf" ∷ "noneOf" ∷ []) (field_names fs)
    ++ all_of
    ++ any_of
    ++ none_of
    ++ unless (ltb 0 (m + n + k)) (path ∷ " must contain at least one predicate" ∷ [])
    ++ unless (leb (m + n + k) 32) (path ∷ " must contain at most 32 predicates in total" ∷ [])
validate_recipe_selector known _ path = unless false (path ∷ " must be an object" ∷ [])

abbrev refers : String → Value → Bool
refers attribute (arr vs) =
    any (λ (predicate : Value). is_str (get predicate "attribute") attribute) (items vs)
refers attribute _ = false

-- selectorReferencesAttribute
unfoldable pub selector_references_attribute : Value → String → Bool
selector_references_attribute (obj fs) attribute =
    refers attribute (lookup "allOf" fs)
    || refers attribute (lookup "anyOf" fs)
    || refers attribute (lookup "noneOf" fs)
selector_references_attribute _ attribute = false

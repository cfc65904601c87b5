-- ===== src/Backend/Checks.antt =====
-- api/backend-adapter-primitives.js: merging, and the checks that the validators share.
use autoform_panel.Js.Print.{to_text}
use autoform_panel.Js.Text.{trim, is_blank}
use autoform_panel.Stats.{at_field, indexed, elements, unless}
use autoform_panel.Js.Value.{
  bool, frac, no_element, lookup, int, set_field, num, items, property, no_property, element, str,
  obj, get, contains, arr, Properties, Value,
}
use autoform_panel.Prelude.{
  ℕ, ◌+◌, String, Bool, true, false, not, Option, none, some, List, [], ◌∷◌, ◌++◌, str_eq,
  if◌then◌else◌,
}

unfoldable mutual
  -- What stands under a name other than `__proto__` after a merge; a clone of a JSON value is that
  -- value.
  pub merged_value : Value → Value → Value
  merged_value (obj gs) (obj fs) = obj (merge_into gs fs)
  merged_value old v = v

  pub merge_into : Properties → Properties → Properties
  merge_into out no_property = out
  merge_into out (property k v fs) = merge_into (set_field k (merged_value (lookup k out) v) out) fs

abbrev pub own_fields : Value → Properties
own_fields (obj fs) = fs
own_fields _ = no_property

-- mergeObjects
unfoldable pub merge_objects : Value → Value → Value
merge_objects base incoming = obj (merge_into (own_fields base) (own_fields incoming))

-- `typeof value === "string" && value.trim()`
abbrev pub is_filled : Value → Bool
is_filled (str s) = not (is_blank s)
is_filled _ = false

-- addRequiredString
abbrev pub required_string : Value → String → List String
required_string v path = unless (is_filled v) (path ∷ " is required" ∷ [])

abbrev pub required_strings : Value → List String → String → List String
required_strings v [] path = []
required_strings v (k ∷ ks) path =
    required_string (get v k) (at_field path k) ++ required_strings v ks path

abbrev first_key : List (String × String) → String → Option String
first_key [] field = none
first_key ((f, k) ∷ rest) field = if str_eq f field then some k else first_key rest field

abbrev trimmed : Value → String
trimmed (str s) = trim s
trimmed _ = ""

abbrev differ_error : String → String → Option String → List String
differ_error path key none = []
differ_error path key (some other) =
    unless false (path ∷ "." ∷ key ∷ " must differ from " ∷ path ∷ "." ∷ other ∷ [])

-- addDistinctFieldNames, from the names seen so far on
unfoldable pub distinct_field_names :
    Value → List String → String → List (String × String) → List String
distinct_field_names v [] path seen = []
distinct_field_names v (k ∷ ks) path seen =
    let field = trimmed (get v k) in
    let rest =
      distinct_field_names v ks path
        (if str_eq field "" then seen else seen ++ ((field, k) ∷ [])) in
    if str_eq field "" then rest else differ_error path k (first_key seen field) ++ rest

abbrev array_error : Bool → String → List String
array_error allow_empty path =
    unless false
      (path ∷ (if allow_empty then " must be an array" else " must be a non-empty array") ∷ [])

module _ (valid : Value → Bool) (what : String) where
  abbrev pub each_item : String → List Value → ℕ → List String
  each_item path [] n = []
  each_item path (v ∷ vs) n =
      unless (valid v) (indexed path n ∷ what ∷ []) ++ each_item path vs (n + 1)

  abbrev pub checked_array : Bool → Value → String → List String
  checked_array allow_empty (arr no_element) path =
      if allow_empty then [] else array_error allow_empty path
  checked_array allow_empty (arr (element v vs)) path = each_item path (v ∷ items vs) 0
  checked_array allow_empty _ path = array_error allow_empty path

-- addStringArray
unfoldable pub string_array : Bool → Value → String → List String
string_array allow_empty v path =
    checked_array is_filled " must be a non-empty string" allow_empty v path

abbrev is_business_value : Value → Bool
is_business_value (str s) = not (is_blank s)
is_business_value (num (int z)) = true
is_business_value (num (frac s)) = true
is_business_value (bool b) = true
is_business_value _ = false

-- addBusinessValueArray
unfoldable pub business_value_array : Bool → Value → String → List String
business_value_array allow_empty v path =
    checked_array is_business_value " must be a string, number or boolean" allow_empty v path

-- normalizedBusinessValue
abbrev pub normalized_value : Value → String
normalized_value (str s) = trim s
normalized_value v = to_text v

abbrev pub repeated_values : String → List Value → ℕ → List String → List String
repeated_values path [] n seen = []
repeated_values path (v ∷ vs) n seen =
    let key = normalized_value v in
    unless (not (contains seen key)) (indexed path n ∷ " must not be duplicated" ∷ [])
    ++ repeated_values path vs (n + 1) (key ∷ seen)

-- addUniqueBusinessValueArray
unfoldable pub unique_business_values : Bool → Value → String → List String
unfolding business_value_array
unique_business_values allow_empty v path =
    business_value_array allow_empty v path ++ repeated_values path (elements v) 0 []

abbrev repeated_texts : String → List Value → ℕ → List String → List String
repeated_texts path [] n seen = []
repeated_texts path (v ∷ vs) n seen =
    let rest = repeated_texts path vs (n + 1) seen in
    let marked =
      unless (not (contains seen (trimmed v))) (indexed path n ∷ " must not be duplicated" ∷ [])
      ++ repeated_texts path vs (n + 1) (trimmed v ∷ seen) in
    if is_filled v then marked else rest

-- addUniqueStringArray
unfoldable pub unique_strings : Bool → Value → String → List String
unfolding string_array
unique_strings allow_empty v path =
    string_array allow_empty v path ++ repeated_texts path (elements v) 0 []

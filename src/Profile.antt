-- ===== src/Profile.antt =====
-- api/profile-primitives.js and api/profile-runtime-config.js: texts that are required, equality of
-- JSON values, and the fields that an edit keeps.
pub mod Preserve
pub mod Choices
pub mod Tests
use autoform_panel.Pairing.Messages.{sort, same_keys}
use autoform_panel.Js.Value.{
  obj, arr, str, Value, Elements, Properties, no_element, element, no_property, property, strict_eq,
  lookup, set_field, field_names, contains,
}
use autoform_panel.Js.Text.{trim}
use autoform_panel.Stats.{unless}
use autoform_panel.Prelude.{
  String, Bool, true, false, not, ◌&&◌, List, [], ◌∷◌, str_eq, if◌then◌else◌,
}

-- requireString
unfoldable pub require_string : Value → String → List String
require_string (str s) path = unless (not (str_eq (trim s) "")) (path ∷ " is required" ∷ [])
require_string _ path = unless false (path ∷ " is required" ∷ [])

unfoldable mutual
  -- jsonValuesEqual; the names of an object are compared in their sorted order.
  pub json_equal : Value → Value → Bool
  json_equal (arr vs) (arr ws) = elements_equal vs ws
  json_equal (obj fs) (obj gs) =
      same_keys (sort (field_names fs)) (sort (field_names gs)) && fields_equal fs gs
  json_equal v w = strict_eq v w

  pub elements_equal : Elements → Elements → Bool
  elements_equal no_element no_element = true
  elements_equal (element v vs) (element w ws) = json_equal v w && elements_equal vs ws
  elements_equal _ _ = false

  pub fields_equal : Properties → Properties → Bool
  fields_equal no_property gs = true
  fields_equal (property k v fs) gs = json_equal v (lookup k gs) && fields_equal fs gs

-- A display field of the edit replaces the current one, if the edit has it.
abbrev pub keep_display : Properties → Properties → String → Properties
keep_display next kept key =
    if contains (field_names next) key then set_field key (lookup key next) kept else kept

-- `for (const [key, value] of Object.entries(current)) preserved[key] = …`: an assignment under
-- `__proto__` makes no field.
abbrev pub assigned_fields : Properties → Properties
assigned_fields no_property = no_property
assigned_fields (property k v fs) =
    let rest = assigned_fields fs in if str_eq k "__proto__" then rest else property k v rest

-- preserveRuntimeProfileConfig, by the fields that the result has of its own, which are those that
-- JSON prints; a clone of a JSON value is that value.
unfoldable pub preserve_config : Value → Value → Value
preserve_config (obj next) (obj current) =
    obj (keep_display next (keep_display next (assigned_fields current) "displayName") "searchText")
preserve_config next current = next

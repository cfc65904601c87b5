-- ===== src/Notification/Round.antt =====
-- api/notification-adapter-round-data.js: the data of a submission round, and the template of a body.
pub mod Container
use autoform_panel.Notification.Time.{parse_iso_offset_date_time}
use autoform_panel.Notification.Templates.{is_some}
use autoform_panel.Stats.{at_field, unless}
use autoform_panel.Notification.{
  max_round_items, validate_string_array, utf16_length, indexed, bounded_string, schema_keys,
}
use autoform_panel.Js.Value.{
  no_element, no_property, property, Properties, element, pos, lookup, Elements, items, int,
  field_names, str, obj, num, has_own, get, contains, bool, arr, Value,
}
use autoform_panel.Prelude.{
  ℕ, ◌+◌, String, Bool, true, false, ◌&&◌, List, [], ◌∷◌, ◌++◌, ltb, leb, if◌then◌else◌, length,
}

-- SUBMISSION_ROUND_FIELD_SHAPE
abbrev pub round_field_shape : List (String × String)
round_field_shape =
    ("success", "boolean")
    ∷ ("profileLabel", "string")
    ∷ ("operatorLabel", "string")
    ∷ ("completedAt", "isoOffsetDateTime")
    ∷ ("submittedCount", "integer")
    ∷ ("missingItems", "countedItemArray")
    ∷ ("newMissingItems", "stringArray")
    ∷ ("recoveredItems", "stringArray")
    ∷ ("errors", "stringArray")
    ∷ ("unconfirmedIdentifiers", "stringArray")
    ∷ ("networkAffectedIdentifiers", "stringArray")
    ∷ []

abbrev pub round_fields : List String
round_fields = schema_keys round_field_shape

abbrev pub max_round_count : ℕ
max_round_count = 1000000

-- `Number.isInteger(value) && value >= low && value <= high`
abbrev pub int_between : ℕ → ℕ → Value → Bool
int_between low high (num (int (pos n))) = leb low n && leb n high
int_between low high _ = false

module _ (path : String) where
  abbrev pub item_keys : List String → List String
  item_keys [] = []
  item_keys (k ∷ ks) =
      unless (contains ("label" ∷ "affectedCount" ∷ []) k)
        (path ∷ "." ∷ k ∷ " is not supported" ∷ [])
      ++ item_keys ks

  -- The body of the loop of validateMissingItems.
  unfoldable pub missing_item : Value → List String
  missing_item (obj fs) =
      item_keys (field_names fs)
      ++ unless (bounded_string (lookup "label" fs) 160 false)
          (path ∷ ".label must be a non-empty string not exceeding 160 characters" ∷ [])
      ++ unless (int_between 1 max_round_count (lookup "affectedCount" fs))
          (path ∷ ".affectedCount must be an integer from 1 to 1000000" ∷ [])
  missing_item _ = unless false (path ∷ " must be an object" ∷ [])

abbrev pub missing_items_from : List Value → ℕ → List String
missing_items_from [] n = []
missing_items_from (v ∷ vs) n =
    missing_item (indexed "data.missingItems" n) v ++ missing_items_from vs (n + 1)

-- validateMissingItems
unfoldable pub validate_missing_items : Value → List String
validate_missing_items (arr vs) =
    unless (leb (length (items vs)) max_round_items)
      ("data.missingItems must not contain more than 100 items" ∷ [])
    ++ missing_items_from (items vs) 0
validate_missing_items _ = unless false ("data.missingItems must be an array" ∷ [])

abbrev pub unknown_keys : List String → List String
unknown_keys [] = []
unknown_keys (k ∷ ks) =
    unless (contains round_fields k) ("data." ∷ k ∷ " is not supported" ∷ []) ++ unknown_keys ks

abbrev pub required_keys : Value → List String → List String
required_keys value [] = []
required_keys value (k ∷ ks) =
    unless (has_own value k) ("data." ∷ k ∷ " is required" ∷ []) ++ required_keys value ks

abbrev pub is_bool : Value → Bool
is_bool (bool b) = true
is_bool _ = false

-- A time, which the pattern and the parser accept.
abbrev pub is_time : Value → Bool
is_time v = bounded_string v 40 false && is_some (parse_iso_offset_date_time v)

-- The checks of the fields of a plain object.
unfoldable pub round_values : Value → List String
round_values value =
    unless (is_bool (get value "success")) ("data.success must be a boolean" ∷ [])
    ++ unless (bounded_string (get value "profileLabel") 160 false)
        ("data.profileLabel must be a non-empty string not exceeding 160 characters" ∷ [])
    ++ unless (bounded_string (get value "operatorLabel") 160 true)
        ("data.operatorLabel must be a string not exceeding 160 characters" ∷ [])
    ++ unless (is_time (get value "completedAt"))
        ("data.completedAt must be an ISO-8601 date-time with an explicit offset" ∷ [])
    ++ unless (int_between 0 max_round_count (get value "submittedCount"))
        ("data.submittedCount must be an integer from 0 to 1000000" ∷ [])
    ++ validate_missing_items (get value "missingItems")
    ++ validate_string_array "data.newMissingItems" 160 (get value "newMissingItems")
    ++ validate_string_array "data.recoveredItems" 160 (get value "recoveredItems")
    ++ validate_string_array "data.errors" 512 (get value "errors")
    ++ validate_string_array "data.unconfirmedIdentifiers" 128 (get value "unconfirmedIdentifiers")
    ++ validate_string_array "data.networkAffectedIdentifiers" 128
        (get value "networkAffectedIdentifiers")

-- validateSubmissionRoundData
unfoldable pub validate_submission_round_data : Value → List String
validate_submission_round_data (obj fs) =
    unknown_keys (field_names fs) ++ required_keys (obj fs) round_fields ++ round_values (obj fs)
validate_submission_round_data _ = "data must be an object" ∷ []

-- `if (depth > 8) …`
abbrev pub within_levels : String → ℕ → List String → List String
within_levels path depth errors =
    if ltb 8 depth then unless false (path ∷ " must not exceed 8 levels" ∷ []) else errors

unfoldable mutual
  -- validateTemplateContainer; `depth` is the number of levels above.
  pub validate_template_container : Value → String → ℕ → List String
  validate_template_container (str s) path depth =
      within_levels path depth (
        unless (leb (utf16_length s) 4000) (path ∷ " strings must not exceed 4000 characters" ∷ []))
  validate_template_container (arr vs) path depth = within_levels path depth (
      unless (leb (length (items vs)) 100)
        (path ∷ " arrays must not contain more than 100 items" ∷ [])
      ++ container_elements vs path 0 (depth + 1))
  validate_template_container (obj fs) path depth = within_levels path depth (
      unless (leb (length (field_names fs)) 100)
        (path ∷ " objects must not contain more than 100 fields" ∷ [])
      ++ container_fields fs path (depth + 1))
  validate_template_container _ path depth = within_levels path depth []

  pub container_elements : Elements → String → ℕ → ℕ → List String
  container_elements no_element path n depth = []
  container_elements (element v vs) path n depth =
      validate_template_container v (indexed path n) depth
      ++ container_elements vs path (n + 1) depth

  pub container_fields : Properties → String → ℕ → List String
  container_fields no_property path depth = []
  container_fields (property k v fs) path depth =
      unless (bounded_string (str k) 128 false) (path ∷ " contains an invalid field name" ∷ [])
      ++ validate_template_container v (at_field path k) depth
      ++ container_fields fs path depth

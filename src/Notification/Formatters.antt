-- ===== src/Notification/Formatters.antt =====
-- validateRoundMessageTemplate and validateV3Formatters of api/notification-adapter-templates.js.
use autoform_panel.Notification.Round.{round_field_shape, round_fields}
use autoform_panel.Notification.{prototype_names, numeral, bounded_string}
use autoform_panel.Stats.{text_or_empty, at_field, unless}
use autoform_panel.Js.Value.{
  undefined, no_property, lookup, str, property, obj, get, field_names, contains, Value, Properties,
}
use autoform_panel.Notification.Templates.{controlled_template_tokens, Allowed}
use autoform_panel.Prelude.{
  ℕ, String, Bool, true, false, ◌||◌, Option, none, some, List, [], ◌∷◌, ◌++◌, str_eq, leb,
  if◌then◌else◌, length,
}

abbrev pub round_allowed : Allowed
round_allowed = record {
  placeholders = "type" ∷ round_fields;
  conditionals = round_fields;
  allow_conditionals = true;
  max_depth = 4;
}

abbrev pub simple_allowed : List String → Allowed
simple_allowed placeholders = record {
  placeholders = placeholders;
  conditionals = [];
  allow_conditionals = false;
  max_depth = 0;
}

-- validateRoundMessageTemplate
unfoldable pub validate_round_message_template : Value → String → List String
validate_round_message_template (str s) path =
    if bounded_string (str s) 4000 false
    then (controlled_template_tokens round_allowed path s).errors
    else unless false (path ∷ " must be a non-empty string not exceeding 4000 characters" ∷ [])
validate_round_message_template _ path =
    unless false (path ∷ " must be a non-empty string not exceeding 4000 characters" ∷ [])

-- validateFormatterText, at its default
unfoldable pub formatter_text : Value → String → ℕ → List String
formatter_text v path limit =
    unless (bounded_string v limit true)
      (path ∷ " must be a string not exceeding " ∷ numeral limit ∷ " characters" ∷ [])

-- validateFormatterTemplate
unfoldable pub formatter_template : Value → String → List String → List String
formatter_template (str s) path placeholders =
    if bounded_string (str s) 1000 false
    then (controlled_template_tokens (simple_allowed placeholders) path s).errors
    else unless false (path ∷ " must be a non-empty string not exceeding 1000 characters" ∷ [])
formatter_template _ path placeholders =
    unless false (path ∷ " must be a non-empty string not exceeding 1000 characters" ∷ [])

-- V3_FORMATTER_TYPES
pub data FormatterType : Type 0 where
  item_count : FormatterType
  text_list : FormatterType
  iso_local_seconds : FormatterType
  grouped_count_list : FormatterType

abbrev formatter_type_of : String → Option FormatterType
formatter_type_of s =
    if str_eq s "length"
    then some item_count
    else if str_eq s "list"
    then some text_list
    else if str_eq s "isoLocalSeconds"
    then some iso_local_seconds
    else if str_eq s "groupedCountList"
    then some grouped_count_list
    else none

abbrev pub formatter_type : Value → Option FormatterType
formatter_type (str s) = formatter_type_of s
formatter_type _ = none

-- V3_FORMATTER_KEYS
abbrev pub formatter_keys : FormatterType → List String
formatter_keys item_count = "type" ∷ []
formatter_keys text_list = "type" ∷ "empty" ∷ "separator" ∷ "prefixEach" ∷ []
formatter_keys iso_local_seconds = "type" ∷ []
formatter_keys grouped_count_list =
    "type" ∷ "empty" ∷ "groupSeparator" ∷ "itemSeparator" ∷ "groupTemplate" ∷ "itemTemplate" ∷ []

abbrev pub compatible : FormatterType → String → Bool
compatible item_count kind = str_eq kind "stringArray" || str_eq kind "countedItemArray"
compatible text_list kind = str_eq kind "stringArray"
compatible iso_local_seconds kind = str_eq kind "isoOffsetDateTime"
compatible grouped_count_list kind = str_eq kind "countedItemArray"

-- `SUBMISSION_ROUND_FIELD_SHAPE[field]`; what the prototype holds is no kind, here the empty text.
abbrev pub shape_of : List (String × String) → String → Option String
shape_of [] field = if contains prototype_names field then some "" else none
shape_of ((k, kind) ∷ ks) field = if str_eq k field then some kind else shape_of ks field

module _ (path : String) where
  abbrev pub unsupported_keys : List String → List String → List String
  unsupported_keys allowed [] = []
  unsupported_keys allowed (k ∷ ks) =
      unless (contains allowed k) (path ∷ "." ∷ k ∷ " is not supported" ∷ [])
      ++ unsupported_keys allowed ks

  abbrev pub formatter_fields : FormatterType → Value → List String
  formatter_fields text_list formatter =
      formatter_text (get formatter "empty") (at_field path "empty") 512
      ++ formatter_text (get formatter "separator") (at_field path "separator") 64
      ++ formatter_text (get formatter "prefixEach") (at_field path "prefixEach") 64
  formatter_fields grouped_count_list formatter =
      formatter_text (get formatter "empty") (at_field path "empty") 512
      ++ formatter_text (get formatter "groupSeparator") (at_field path "groupSeparator") 64
      ++ formatter_text (get formatter "itemSeparator") (at_field path "itemSeparator") 64
      ++ formatter_template (get formatter "groupTemplate") (at_field path "groupTemplate")
          ("count" ∷ "items" ∷ [])
      ++ formatter_template (get formatter "itemTemplate") (at_field path "itemTemplate")
          ("index" ∷ "label" ∷ "count" ∷ [])
  formatter_fields _ formatter = []

  abbrev pub typed_formatter : String → String → Option FormatterType → Properties → List String
  typed_formatter field kind none fs =
      unless false
        (path ∷ ".type must be one of: length, list, isoLocalSeconds, groupedCountList" ∷ [])
      ++ unsupported_keys ("type" ∷ []) (field_names fs)
  typed_formatter field kind (some type) fs =
      unsupported_keys (formatter_keys type) (field_names fs)
      ++ unless (compatible type kind) (
          path
          ∷ ".type "
          ∷ text_or_empty (lookup "type" fs)
          ∷ " is not supported for "
          ∷ field
          ∷ [])
      ++ formatter_fields type (obj fs)

  abbrev pub formatter_of_kind : String → Option String → Value → List String
  formatter_of_kind field none formatter =
      unless false (path ∷ " is not a supported submission.round field" ∷ [])
  formatter_of_kind field (some kind) (obj fs) =
      typed_formatter field kind (formatter_type (lookup "type" fs)) fs
  formatter_of_kind field (some kind) _ = unless false (path ∷ " must be an object" ∷ [])

-- The body of the loop of validateV3Formatters.
unfoldable pub validate_formatter : String → String → Value → List String
validate_formatter path field formatter =
    formatter_of_kind (at_field path field) field (shape_of round_field_shape field) formatter

abbrev pub formatters_from : String → Properties → List String
formatters_from path no_property = []
formatters_from path (property field v fs) =
    validate_formatter path field v ++ formatters_from path fs

-- validateV3Formatters
unfoldable pub validate_v3_formatters : Value → String → List String
validate_v3_formatters undefined path = []
validate_v3_formatters (obj fs) path =
    unless (leb (length (field_names fs)) 11) (path ∷ " must not contain more than 11 fields" ∷ [])
    ++ formatters_from path fs
validate_v3_formatters _ path = unless false (path ∷ " must be an object" ∷ [])

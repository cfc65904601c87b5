-- ===== src/Backend/Dates.antt =====
-- api/backend-adapter-duplicate-date.js: how the dates of earlier entries are read.
use autoform_panel.Backend.Response.{validate_existing_material_quantity_policy}
use autoform_panel.Backend.Checks.{
  business_value_array, required_strings, string_array, required_string,
}
use autoform_panel.Js.Text.{is_blank}
use autoform_panel.Notification.Round.{is_bool, int_between}
use autoform_panel.Stats.{elements, indexed, at_field, among, unless}
use autoform_panel.Backend.{contains, text_among}
use autoform_panel.Backend.Outcome.{operation_of}
use autoform_panel.Js.Value.{
  no_element, field_names, strict_eq, items, str, obj, lookup, has_own, get, arr, Value, Properties,
}
use autoform_panel.Prelude.{
  ℕ, ◌+◌, String, Bool, true, false, not, ◌&&◌, List, [], ◌∷◌, ◌++◌, if◌then◌else◌, any,
}

abbrev date_path : String
date_path = "operations.duplicateCheck"

abbrev date_transforms : List String
date_transforms =
    "iso_t_to_space" ∷ "localized_ymd_to_dashes" ∷ "strip_fractional_suffix" ∷ "strip_trailing_z"
    ∷ "truncate_after_seconds" ∷ []

abbrev transforms_from : String → List Value → ℕ → List Value → List String
transforms_from path [] n seen = []
transforms_from path (v ∷ vs) n seen =
    unless (text_among date_transforms v) (
      indexed path n
      ∷ " must be one of: iso_t_to_space, localized_ymd_to_dashes, strip_fractional_suffix, strip_trailing_z, truncate_after_seconds"
      ∷ [])
    ++ unless (not (among strict_eq seen v)) (indexed path n ∷ " must not be duplicated" ∷ [])
    ++ transforms_from path vs (n + 1) (v ∷ seen)

abbrev units_from : String → List Value → ℕ → List Value → List String
units_from path [] n seen = []
units_from path (v ∷ vs) n seen =
    (if text_among ("seconds" ∷ "milliseconds" ∷ []) v
      then unless (not (among strict_eq seen v)) (indexed path n ∷ " must not be duplicated" ∷ [])
      else unless false (indexed path n ∷ " must be seconds or milliseconds" ∷ []))
    ++ units_from path vs (n + 1) (v ∷ seen)

abbrev is_empty_array : Value → Bool
is_empty_array (arr no_element) = true
is_empty_array _ = false

-- `zone_known` tells the time zones that `Intl.DateTimeFormat` takes.
abbrev zone_errors : (String → Bool) → Value → List String
zone_errors zone_known (str s) =
    if is_blank s
    then []
    else unless (zone_known s)
        ("operations.duplicateCheck.timeZone must be a valid IANA time zone" ∷ [])
zone_errors zone_known _ = []

-- validateDuplicateDateParsingOperation
unfoldable pub validate_duplicate_date_parsing_operation :
    (String → Bool) → Value → Bool → List String
validate_duplicate_date_parsing_operation zone_known (obj fs) required =
    string_array true (lookup "dateTransforms" fs) (at_field date_path "dateTransforms")
    ++ transforms_from (at_field date_path "dateTransforms") (elements (lookup "dateTransforms" fs))
        0 []
    ++ string_array true (lookup "epochUnits" fs) (at_field date_path "epochUnits")
    ++ units_from (at_field date_path "epochUnits") (elements (lookup "epochUnits" fs)) 0 []
    ++ string_array true (lookup "dateFormats" fs) (at_field date_path "dateFormats")
    ++ unless
        (not (is_empty_array (lookup "epochUnits" fs) && is_empty_array (lookup "dateFormats" fs)))
        (date_path ∷ " must configure at least one epoch unit or date format" ∷ [])
    ++ required_string (lookup "timeZone" fs) (at_field date_path "timeZone")
    ++ zone_errors zone_known (lookup "timeZone" fs)
validate_duplicate_date_parsing_operation zone_known _ required =
    unless (not required) (date_path ∷ " must be configured" ∷ [])

abbrev digit_lengths_from : String → List Value → ℕ → List Value → List String
digit_lengths_from path [] n seen = []
digit_lengths_from path (v ∷ vs) n seen =
    unless (int_between 1 19 v && not (among strict_eq seen v))
      (indexed path n ∷ " must be a unique integer from 1 to 19" ∷ [])
    ++ digit_lengths_from path vs (n + 1) (v ∷ seen)

abbrev digit_lengths : Value → List String
digit_lengths (arr vs) = digit_lengths_from (at_field date_path "epochDigitLengths") (items vs) 0 []
digit_lengths _ = unless false (date_path ∷ ".epochDigitLengths must be an array" ∷ [])

abbrev either_of : Properties → String → String → String → List String
either_of fs key one other =
    unless (text_among (one ∷ other ∷ []) (lookup key fs))
      (date_path ∷ "." ∷ key ∷ " must be one of: " ∷ one ∷ ", " ∷ other ∷ [])

abbrev any_own : Value → List String → Bool
any_own v keys = any (λ (k : String). has_own v k) keys

abbrev compatibility_keys : List String
compatibility_keys =
    "epochDigitLengths" ∷ "numericFractionPolicy" ∷ "textParseConsumption" ∷ "plausibilityScope"
    ∷ "timeZoneSource" ∷ "rootValueEnabled" ∷ "numericEpochPrecision" ∷ []

abbrev compatibility_fields : Properties → List String
compatibility_fields fs =
    digit_lengths (lookup "epochDigitLengths" fs)
    ++ either_of fs "numericFractionPolicy" "reject" "truncate"
    ++ either_of fs "textParseConsumption" "full" "prefix"
    ++ either_of fs "plausibilityScope" "all" "epoch_only"
    ++ either_of fs "timeZoneSource" "configured" "device"
    ++ unless (is_bool (lookup "rootValueEnabled" fs))
        (date_path ∷ ".rootValueEnabled must be a boolean" ∷ [])
    ++ (if contains (field_names fs) "numericEpochPrecision"
        then either_of fs "numericEpochPrecision" "exact" "minute_floor"
        else [])

-- validateDuplicateDateCompatibilityPolicy
unfoldable pub validate_duplicate_date_compatibility_policy : Value → List String
validate_duplicate_date_compatibility_policy (obj fs) =
    if any_own (obj fs) compatibility_keys then compatibility_fields fs else []
validate_duplicate_date_compatibility_policy _ = []

-- validateDuplicateDateParsingConfig
unfoldable pub validate_duplicate_date_parsing_config : (String → Bool) → Value → List String
validate_duplicate_date_parsing_config zone_known adapter =
    let operation = operation_of adapter "duplicateCheck" in
    validate_duplicate_date_parsing_operation zone_known operation true
    ++ validate_duplicate_date_compatibility_policy operation

abbrev form_field_keys : List String
form_field_keys =
    "id" ∷ "type" ∷ "parentType" ∷ "typeName" ∷ "title" ∷ "englishTitle" ∷ "options" ∷ []

abbrev quantity_policy : Value → List String
quantity_policy (obj fs) = validate_existing_material_quantity_policy (obj fs)
quantity_policy _ = []

-- validateMaterialRefreshConfig
unfoldable pub validate_material_refresh_config : Value → List String
validate_material_refresh_config adapter =
    let fields = get adapter "fields" in
    required_string (get (get adapter "endpoints") "templateDetail") "endpoints.templateDetail"
    ++ required_string (get (operation_of adapter "templateDetail") "idParam")
        "operations.templateDetail.idParam"
    ++ required_string (get (get fields "template") "fieldList") "fields.template.fieldList"
    ++ required_strings (get fields "formField") form_field_keys "fields.formField"
    ++ required_strings (get fields "option") ("value" ∷ "label" ∷ "englishLabel" ∷ "quantity" ∷ [])
        "fields.option"
    ++ business_value_array false (get (get (get adapter "conversion") "fieldKinds") "items")
        "conversion.fieldKinds.items"
    ++ quantity_policy (operation_of adapter "templateDetail")

-- ===== src/Notification/Event.antt =====
-- validateNotificationEvent of api/notification-adapter-validate.js: what the app may send.
pub mod Valid
use autoform_panel.Js.Print.{to_text}
use autoform_panel.Notification.Templates.{is_data_key}
use autoform_panel.Notification.Round.{validate_submission_round_data, is_bool}
use autoform_panel.Stats.{own_keys, unless}
use autoform_panel.Notification.{event_schema, is_event_type, schema_keys}
use autoform_panel.Js.Text.{codes, is_letter, is_hex, is_digit}
use autoform_panel.Js.Value.{
  pos, lookup, int, get, field_names, str, obj, num, is_str, is_nat, has_own, contains, Value,
  Properties,
}
use autoform_panel.Prelude.{
  not, ℕ, zero, suc, String, Bool, true, false, ◌&&◌, ◌||◌, Option, none, some, List, [], ◌∷◌, ◌++◌,
  str_eq, leb, ◌==◌, if◌then◌else◌, length, all,
}

abbrev among_texts : List String → Value → Bool
among_texts [] v = false
among_texts (s ∷ ss) v = is_str v s || among_texts ss v

abbrev is_hex_any_case : ℕ → Bool
is_hex_any_case c = is_hex c || (leb 65 c && leb c 70)

-- `/^[0-9a-f]{low,high}$/i`
abbrev hex_text : ℕ → ℕ → Value → Bool
hex_text low high (str s) =
    let cs = codes s in all is_hex_any_case cs && leb low (length cs) && leb (length cs) high
hex_text low high _ = false

-- At most `n` digits are left out.
abbrev skip_digits : ℕ → List ℕ → List ℕ
skip_digits zero cs = cs
skip_digits (suc n) [] = []
skip_digits (suc n) (c ∷ cs) = let rest = skip_digits n cs in if is_digit c then rest else c ∷ cs

-- `[0-9]{1,5}`, as what follows it.
abbrev short_number : List ℕ → Option (List ℕ)
short_number [] = none
short_number (c ∷ cs) = if is_digit c then some (skip_digits 4 cs) else none

-- `\.[0-9]{1,5}`
abbrev dotted_number : List ℕ → Option (List ℕ)
dotted_number [] = none
dotted_number (c ∷ cs) = if c == 46 then short_number cs else none

abbrev is_suffix_char : ℕ → Bool
is_suffix_char c = is_letter c || is_digit c || c == 46 || c == 45

-- `(?:[-+][A-Za-z0-9.-]{1,32})?$`
abbrev version_suffix : List ℕ → Bool
version_suffix [] = true
version_suffix (c ∷ cs) =
    (c == 45 || c == 43) && all is_suffix_char cs && leb 1 (length cs) && leb (length cs) 32

-- At most `n` numbers more, and the suffix.
abbrev version_rest : ℕ → List ℕ → Bool
version_rest zero cs = version_suffix cs
version_rest (suc n) cs = elim (dotted_number cs) [
  | none ↦ version_suffix cs
  | some rest ↦ version_rest n rest
]

abbrev second_number : Option (List ℕ) → Bool
second_number none = false
second_number (some cs) = version_rest 2 cs

abbrev first_number : Option (List ℕ) → Bool
first_number none = false
first_number (some cs) = second_number (dotted_number cs)

abbrev version_text : Value → Bool
version_text (str s) = first_number (short_number (codes s))
version_text _ = false

-- `Number.isInteger(value) && value >= 0`
abbrev pub is_non_negative : Value → Bool
is_non_negative (num (int (pos n))) = true
is_non_negative _ = false

abbrev failure_codes : List String
failure_codes =
    "printer_not_ready" ∷ "reprint_api_failed" ∷ "reprint_api_error" ∷ "label_failed_after_retry"
    ∷ "null_throwable" ∷ "unknown_host" ∷ "io_exception" ∷ "security_exception" ∷ "state_exception"
    ∷ "argument_exception" ∷ "runtime_exception" ∷ "exception" ∷ "unknown_failure" ∷ []

abbrev network_transports : List String
network_transports =
    "unknown" ∷ "none" ∷ "wifi" ∷ "cellular" ∷ "ethernet" ∷ "vpn" ∷ "bluetooth" ∷ "other" ∷ []

-- validEventValue
unfoldable pub valid_event_value : String → Value → Bool
valid_event_value kind v =
    if str_eq kind "boolean"
    then is_bool v
    else if str_eq kind "nonNegativeInteger"
    then is_non_negative v
    else if str_eq kind "failureStage"
    then among_texts ("runtime" ∷ "uncaught" ∷ "print" ∷ "dns" ∷ "network" ∷ "submit" ∷ []) v
    else if str_eq kind "failureCode"
    then among_texts failure_codes v
    else if str_eq kind "failureSubphase"
    then among_texts
        ("" ∷ "process_default" ∷ "pre_submit" ∷ "print_adapter" ∷ "submit_unit" ∷ "other" ∷ []) v
    else if str_eq kind "fingerprint"
    then hex_text 8 8 v
    else if str_eq kind "appVersion"
    then is_str v "unknown" || version_text v
    else if str_eq kind "gitHead"
    then is_str v "unknown" || hex_text 7 40 v
    else str_eq kind "networkTransport" && among_texts network_transports v

-- The names that a schema has of its own; `inherited` gives those of what the prototype holds.
abbrev pub own_names : (String → List String) → String → List (String × String) → List String
own_names inherited type [] = inherited type
own_names inherited type (k ∷ ks) = schema_keys (k ∷ ks)

abbrev pub unknown_names : List String → List String → List String
unknown_names known [] = []
unknown_names known (k ∷ ks) =
    unless (is_data_key k && contains known k) ("data." ∷ k ∷ " is not supported" ∷ [])
    ++ unknown_names known ks

abbrev pub checked_field : Value → String → String → List String
checked_field data_value k kind =
    if has_own data_value k
    then unless (valid_event_value kind (get data_value k)) ("data." ∷ k ∷ " is invalid" ∷ [])
    else unless false ("data." ∷ k ∷ " is required" ∷ [])

abbrev pub checked_fields : Value → List (String × String) → List String
checked_fields data_value [] = []
checked_fields data_value ((k, kind) ∷ ks) =
    checked_field data_value k kind ++ checked_fields data_value ks

abbrev pub event_type_errors : Value → List String
event_type_errors (str s) =
    unless (is_event_type s) ("type must be a 1-64 character identifier" ∷ [])
event_type_errors _ = unless false ("type must be a 1-64 character identifier" ∷ [])

abbrev known_request_key : String → Bool
known_request_key k = contains ("version" ∷ "type" ∷ "data" ∷ []) k

abbrev request_keys : List String → List String
request_keys [] = []
request_keys (k ∷ ks) =
    unless (known_request_key k) (k ∷ " is not supported" ∷ []) ++ request_keys ks

abbrev pub event_fields :
    (String → List String) → String → List (String × String) → Value → List String
event_fields inherited type schema data_value =
    unknown_names (own_names inherited type schema) (own_keys data_value)
    ++ checked_fields data_value schema

abbrev pub event_data :
    (String → List String) → String → Option (List (String × String)) → Value → List String
event_data inherited type none (obj fs) = "type is not supported" ∷ []
event_data inherited type none _ = "type is not supported" ∷ "data must be an object" ∷ []
event_data inherited type (some schema) (obj fs) = event_fields inherited type schema (obj fs)
event_data inherited type (some schema) _ = "data must be an object" ∷ []

module _ (inherited : String → List String) where
  abbrev pub second_version : Properties → List String
  second_version fs =
      unless (is_nat (lookup "version" fs) 2) ("version must be 2" ∷ [])
      ++ event_type_errors (lookup "type" fs)
      ++ event_data inherited (to_text (lookup "type" fs))
          (event_schema (to_text (lookup "type" fs))) (lookup "data" fs)

  -- validateNotificationEvent
  unfoldable pub validate_notification_event : Value → List String
  validate_notification_event (obj fs) =
      request_keys (field_names fs)
      ++ (if is_nat (lookup "version" fs) 3
          then unless (is_str (lookup "type" fs) "submission.round")
              ("type must be submission.round for version 3" ∷ [])
            ++ validate_submission_round_data (lookup "data" fs)
          else second_version fs)
  validate_notification_event _ = "request must be an object" ∷ []

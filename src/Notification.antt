-- ===== src/Notification.antt =====
-- The notification contract of a panel: api/notification-adapter-primitives.js and the limits of
-- api/notification-adapter-constants.js. Validators return their errors in the order of the source.
pub mod Templates
pub mod Time
pub mod Round
pub mod Formatters
pub mod Delivery
pub mod Render
pub mod Validate
pub mod Event
pub mod Tests
pub mod RenderTests
use autoform_panel.Stats.{indexed, glue, unless}
use autoform_panel.Js.Text.{numeral, utf16_length, is_blank, is_digit, is_letter, codes}
use autoform_panel.Notification.Templates.{is_some, is_data_key, after_prefix}
use autoform_panel.Js.Value.{
  no_element, no_property, element, items, contains, Elements, str, property, obj, arr, Value,
  Properties,
}
use autoform_panel.Prelude.{
  ℕ, zero, suc, ◌+◌, code, String, Bool, true, false, not, ◌&&◌, ◌||◌, Option, none, some, List, [],
  ◌∷◌, ◌++◌, map, str_eq, leb, ◌==◌, if◌then◌else◌, length, all,
}
use mathlib.Core.Option
use Prim.Native.String

abbrev pub is_json_container : Value → Bool
is_json_container (arr vs) = true
is_json_container (obj fs) = true
is_json_container _ = false

-- `value.includes(part)`
unfoldable pub includes_text : String → String → Bool
includes_text part String.[] = is_some (after_prefix part "")
includes_text part (String.◌∷◌ c s) =
    is_some (after_prefix part (String.◌∷◌ c s)) || includes_text part s

unfoldable mutual
  -- containsMessagePlaceholder
  pub contains_message : Value → Bool
  contains_message (str s) = includes_text "{{message}}" s
  contains_message (arr vs) = some_element vs
  contains_message (obj fs) = some_field fs
  contains_message _ = false

  some_element : Elements → Bool
  some_element no_element = false
  some_element (element v vs) = contains_message v || some_element vs

  some_field : Properties → Bool
  some_field no_property = false
  some_field (property k v fs) = contains_message v || some_field fs

-- boundedString
unfoldable pub bounded_string : Value → ℕ → Bool → Bool
bounded_string (str s) limit allow_empty =
    leb (utf16_length s) limit && (allow_empty || not (str_eq s ""))
bounded_string _ limit allow_empty = false

abbrev pub max_round_items : ℕ
max_round_items = 100

module _ (path : String) (limit : ℕ) where
  abbrev string_items : List Value → ℕ → List String
  string_items [] n = []
  string_items (v ∷ vs) n =
      unless (bounded_string v limit false) (
        indexed path n
        ∷ " must be a non-empty string not exceeding "
        ∷ numeral limit
        ∷ " characters"
        ∷ [])
      ++ string_items vs (n + 1)

  -- validateStringArray
  unfoldable pub validate_string_array : Value → List String
  validate_string_array (arr vs) =
      unless (leb (length (items vs)) max_round_items)
        (path ∷ " must not contain more than 100 items" ∷ [])
      ++ string_items (items vs) 0
  validate_string_array _ = unless false (path ∷ " must be an array" ∷ [])

-- NOTIFICATION_EVENT_SCHEMAS
abbrev pub summary_schema : List (String × String)
summary_schema =
    ("success", "boolean")
    ∷ ("submittedCount", "nonNegativeInteger")
    ∷ ("errorCount", "nonNegativeInteger")
    ∷ ("unconfirmedPrintCount", "nonNegativeInteger")
    ∷ ("missingMaterialTypeCount", "nonNegativeInteger")
    ∷ ("newMissingMaterialTypeCount", "nonNegativeInteger")
    ∷ ("recoveredMaterialTypeCount", "nonNegativeInteger")
    ∷ ("networkAffectedCount", "nonNegativeInteger")
    ∷ []

abbrev pub failure_schema : List (String × String)
failure_schema =
    ("stage", "failureStage")
    ∷ ("errorCode", "failureCode")
    ∷ ("subphase", "failureSubphase")
    ∷ ("fingerprint", "fingerprint")
    ∷ ("appVersion", "appVersion")
    ∷ ("gitHead", "gitHead")
    ∷ ("androidSdk", "nonNegativeInteger")
    ∷ ("networkTransport", "networkTransport")
    ∷ ("networkValidated", "boolean")
    ∷ ("networkCaptive", "boolean")
    ∷ ("networkInternet", "boolean")
    ∷ ("networkMetered", "boolean")
    ∷ ("networkVpn", "boolean")
    ∷ []

-- What `Object.prototype` holds.
abbrev pub prototype_names : List String
prototype_names =
    "constructor" ∷ "__defineGetter__" ∷ "__defineSetter__" ∷ "hasOwnProperty" ∷ "__lookupGetter__"
    ∷ "__lookupSetter__" ∷ "isPrototypeOf" ∷ "propertyIsEnumerable" ∷ "toString" ∷ "valueOf"
    ∷ "__proto__" ∷ "toLocaleString" ∷ []

-- `NOTIFICATION_EVENT_SCHEMAS[type]`, by its enumerable properties; what the prototype holds has none.
abbrev pub event_schema : String → Option (List (String × String))
event_schema type =
    if str_eq type "submission.summary"
    then some summary_schema
    else if str_eq type "runtime.failure"
    then some failure_schema
    else if contains prototype_names type
    then some []
    else none

abbrev pub schema_keys : List (String × String) → List String
schema_keys [] = []
schema_keys ((k, kind) ∷ ks) = k ∷ schema_keys ks

abbrev is_event_char : ℕ → Bool
is_event_char c = is_letter c || is_digit c || c == 46 || c == 95 || c == 45

-- EVENT_TYPE_PATTERN, /^[A-Za-z0-9._-]{1,64}$/
unfoldable pub is_event_type : String → Bool
is_event_type s =
    let cs = codes s in all is_event_char cs && leb 1 (length cs) && leb (length cs) 64

-- `[^{}]*\}\}` at the front of a text, as the part before the braces.
unfoldable pub raw_placeholder : String → Option String
raw_placeholder String.[] = none
raw_placeholder (String.◌∷◌ c s) =
    if code c == 125
    then (if is_some (after_prefix "}" s) then some "" else none)
    else if code c == 123
    then none
    else Option.map (String.◌∷◌ c) (raw_placeholder s)

-- `\{\{([^{}]*)\}\}` at the front of a text, as its group.
abbrev pub braced : Option String → Option String
braced none = none
braced (some s) = raw_placeholder s

-- The groups of all matches; `skip` characters belong to the match before.
placeholders_from : ℕ → String → List String
placeholders_from skip String.[] = []
placeholders_from (suc skip) (String.◌∷◌ c s) = placeholders_from skip s
placeholders_from zero (String.◌∷◌ c s) = elim (braced (after_prefix "{{" (String.◌∷◌ c s))) [
  | none ↦ placeholders_from 0 s
  | some raw ↦ raw ∷ placeholders_from (length (codes raw) + 3) s
]

-- templatePlaceholders
unfoldable pub template_placeholders : String → List String
unfolding placeholders_from raw_placeholder
template_placeholders template = placeholders_from 0 template

module _ (path : String) (allowed : List String) where
  abbrev event_placeholder : String → List String
  event_placeholder field =
      if not (is_data_key field) && not (str_eq field "type")
      then unless false (path ∷ " uses invalid placeholder {{" ∷ field ∷ "}}" ∷ [])
      else unless (contains allowed field)
          (path ∷ " uses unsupported placeholder {{" ∷ field ∷ "}}" ∷ [])

  abbrev event_placeholders : List String → List String
  event_placeholders [] = []
  event_placeholders (f ∷ fs) = event_placeholder f ++ event_placeholders fs

abbrev event_text : String → List String → Value → List String
event_text path allowed (str s) =
    if is_blank s
    then unless false (path ∷ " must be a non-empty string" ∷ [])
    else unless (leb (utf16_length s) 4000) (path ∷ " must not exceed 4000 characters" ∷ [])
      ++ event_placeholders path ("type" ∷ allowed) (template_placeholders s)
event_text path allowed _ = unless false (path ∷ " must be a non-empty string" ∷ [])

abbrev event_template : String → Option (List (String × String)) → Value → List String
event_template path none v = unless false (path ∷ " is not a supported event type" ∷ [])
event_template path (some schema) v = event_text path (schema_keys schema) v

abbrev event_templates : Properties → List String
event_templates no_property = []
event_templates (property type v fs) =
    event_template (glue ("notificationAdapter.eventTemplates." ∷ type ∷ []))
      (if is_event_type type then event_schema type else none) v
    ++ event_templates fs

-- validateEventTemplates
unfoldable pub validate_event_templates : Value → List String
validate_event_templates (obj (property k v fs)) = event_templates (property k v fs)
validate_event_templates _ =
    unless false ("notificationAdapter.eventTemplates must be a non-empty object" ∷ [])

-- ===== src/Notification/Delivery.antt =====
-- api/notification-adapter-v3.js: an adapter of two deliveries.
pub mod Valid
use autoform_panel.Notification.Formatters.{validate_v3_formatters, validate_round_message_template}
use autoform_panel.Js.Print.{to_text}
use autoform_panel.Notification.Round.{validate_template_container, int_between}
use autoform_panel.Js.Text.{codes}
use autoform_panel.Notification.{contains_message, is_json_container, bounded_string}
use autoform_panel.Stats.{among, at_field, indexed, unless, glue}
use autoform_panel.Js.Value.{
  items, lookup, element, truthy, strict_eq, str, obj, field_names, contains, arr, Value,
  Properties,
}
use autoform_panel.Prelude.{
  ℕ, ◌+◌, ◌-◌, String, Bool, true, false, not, ◌&&◌, ◌||◌, Option, none, some, List, [], ◌∷◌, ◌++◌,
  str_eq, leb, ◌==◌, if◌then◌else◌,
}

-- The code points of the upper case, where it has a letter of a method: three characters outside
-- the basic letters have such.
abbrev upper_codes : List ℕ → List ℕ
upper_codes [] = []
upper_codes (c ∷ cs) =
    let rest = upper_codes cs in
    if leb 97 c && leb c 122
    then (c - 32) ∷ rest
    else if c == 383
    then 83 ∷ rest
    else if c == 64261 || c == 64262
    then 83 ∷ 84 ∷ rest
    else c ∷ rest

abbrev same_codes : List ℕ → List ℕ → Bool
same_codes [] [] = true
same_codes (c ∷ cs) (d ∷ ds) = c == d && same_codes cs ds
same_codes _ _ = false

abbrev pub method_text : Value → String
method_text v = if truthy v then to_text v else ""

-- `ALLOWED_METHODS.has(String(value || "").toUpperCase())`
unfoldable pub is_method : Value → Bool
is_method v =
    let method = upper_codes (codes (method_text v)) in
    same_codes method (codes "POST")
    || same_codes method (codes "PUT")
    || same_codes method (codes "PATCH")

abbrev pub protocol_errors : String → Option String → List String
protocol_errors path none = unless false (path ∷ " must be an absolute URL" ∷ [])
protocol_errors path (some protocol) =
    unless (str_eq protocol "https:" || str_eq protocol "http:")
      (path ∷ " must use http or https" ∷ [])

module _ (protocol_of : String → Option String) where
  -- `protocol_of` is `new URL(text).protocol`, none where the constructor throws.
  abbrev pub url_errors : String → Value → List String
  url_errors path (str s) = protocol_errors path (protocol_of s)
  url_errors path _ = []

  abbrev pub delivery_url : String → Value → List String
  delivery_url path url =
      if bounded_string url 2048 false
      then url_errors (at_field path "url") url
      else unless false (path ∷ ".url is required and must not exceed 2048 characters" ∷ [])

abbrev pub method_errors : String → Value → List String
method_errors path method =
    unless (is_method method) (path ∷ ".method must be one of: POST, PUT, PATCH" ∷ [])

abbrev pub delivery_body : String → Value → List String
delivery_body path body =
    if is_json_container body
    then validate_template_container body (at_field path "bodyTemplate") 0
      ++ unless (contains_message body) (path ∷ ".bodyTemplate must contain {{message}}" ∷ [])
    else unless false (path ∷ ".bodyTemplate must be a JSON object or array" ∷ [])

abbrev pub status_error : String → Value → List Value → List String
status_error path v seen =
    if int_between 100 599 v
    then unless (not (among strict_eq seen v)) (path ∷ " must not be duplicated" ∷ [])
    else unless false (path ∷ " must be an HTTP status integer" ∷ [])

abbrev pub statuses_from : String → List Value → ℕ → List Value → List String
statuses_from path [] n seen = []
statuses_from path (v ∷ vs) n seen =
    status_error (indexed path n) v seen ++ statuses_from path vs (n + 1) (v ∷ seen)

abbrev pub delivery_statuses : String → Value → List String
delivery_statuses path (arr (element v vs)) =
    statuses_from (at_field path "successStatuses") (v ∷ items vs) 0 []
delivery_statuses path _ = unless false (path ∷ ".successStatuses must be a non-empty array" ∷ [])

abbrev pub unsupported_in : String → List String → List String → List String
unsupported_in path allowed [] = []
unsupported_in path allowed (k ∷ ks) =
    unless (contains allowed k) (path ∷ "." ∷ k ∷ " is not supported" ∷ [])
    ++ unsupported_in path allowed ks

abbrev pub delivery_response : String → Value → List String
delivery_response path (obj fs) =
    unsupported_in (at_field path "response") ("textContains" ∷ []) (field_names fs)
    ++ unless (bounded_string (lookup "textContains" fs) 256 false) (
        path ∷ ".response.textContains must be a non-empty string not exceeding 256 characters"
        ∷ [])
delivery_response path _ = unless false (path ∷ ".response must be an object" ∷ [])

abbrev pub delivery_keys : List String
delivery_keys =
    "url" ∷ "method" ∷ "bodyTemplate" ∷ "messageTemplate" ∷ "formatters" ∷ "successStatuses"
    ∷ "response" ∷ "timeoutMs" ∷ []

abbrev pub delivery_path : String → String
delivery_path name = glue ("notificationAdapter.deliveries." ∷ name ∷ [])

module _ (protocol_of : String → Option String) where
  abbrev pub delivery_fields : String → Properties → List String
  delivery_fields path fs =
      unsupported_in path delivery_keys (field_names fs)
      ++ delivery_url protocol_of path (lookup "url" fs)
      ++ method_errors path (lookup "method" fs)
      ++ delivery_body path (lookup "bodyTemplate" fs)
      ++ validate_round_message_template (lookup "messageTemplate" fs)
          (at_field path "messageTemplate")
      ++ validate_v3_formatters (lookup "formatters" fs) (at_field path "formatters")
      ++ delivery_statuses path (lookup "successStatuses" fs)
      ++ delivery_response path (lookup "response" fs)
      ++ unless (int_between 1000 8000 (lookup "timeoutMs" fs))
          (path ∷ ".timeoutMs must be an integer from 1000 to 8000" ∷ [])

  -- validateV3Delivery, from the path of the delivery on
  unfoldable pub validate_delivery : String → Value → List String
  validate_delivery path (obj fs) = delivery_fields path fs
  validate_delivery path _ = unless false (path ∷ " must be an object" ∷ [])

  abbrev pub deliveries : Value → List String
  deliveries (obj fs) =
      unsupported_in "notificationAdapter.deliveries" ("summary" ∷ "problem" ∷ []) (field_names fs)
      ++ validate_delivery (delivery_path "summary") (lookup "summary" fs)
      ++ validate_delivery (delivery_path "problem") (lookup "problem" fs)
  deliveries _ = unless false ("notificationAdapter.deliveries must be an object" ∷ [])

  -- validateNotificationAdapterV3, of a plain object
  unfoldable pub validate_notification_adapter_v3 : Value → List String
  validate_notification_adapter_v3 (obj fs) =
      unsupported_in "notificationAdapter" ("version" ∷ "deliveries" ∷ []) (field_names fs)
      ++ deliveries (lookup "deliveries" fs)
  validate_notification_adapter_v3 _ = []

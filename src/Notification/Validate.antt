-- ===== src/Notification/Validate.antt =====
-- api/notification-adapter-validate.js: the second version of the adapter, the migration to it, and
-- the validation of adapters.
pub mod Migrated
use autoform_panel.Notification.Round.{int_between}
use autoform_panel.Notification.Delivery.{
  validate_notification_adapter_v3, method_errors, url_errors, unsupported_in,
}
use autoform_panel.Stats.{own_keys, unless}
use autoform_panel.Notification.{
  validate_event_templates, is_blank, indexed, contains_message, is_json_container,
}
use autoform_panel.Js.Value.{
  no_element, non_finite, Elements, null, frac, int, undefined, set_field, object, num, items,
  no_property, nat, lookup, get, field_names, element, contains, bool, str, property, obj,
  is_undefined, is_nat, arr, Value, Properties,
}
use autoform_panel.Prelude.{
  ℕ, ◌+◌, String, Bool, true, false, not, Option, List, [], ◌∷◌, ◌++◌, if◌then◌else◌,
}

unfoldable mutual
  -- `JSON.parse(JSON.stringify(value))`
  pub json_clone : Value → Value
  json_clone (arr vs) = arr (clone_elements vs)
  json_clone (obj fs) = obj (clone_fields fs)
  json_clone undefined = undefined
  json_clone null = null
  json_clone (bool b) = bool b
  json_clone (num (int z)) = num (int z)
  json_clone (num (frac s)) = num (frac s)
  json_clone (num non_finite) = null
  json_clone (str s) = str s

  pub clone_elements : Elements → Elements
  clone_elements no_element = no_element
  clone_elements (element v vs) =
      element (if is_undefined v then null else json_clone v) (clone_elements vs)

  -- A property that is undefined is left out.
  pub clone_fields : Properties → Properties
  clone_fields no_property = no_property
  clone_fields (property k v fs) =
      let rest = clone_fields fs in
      let kept = property k (json_clone v) (clone_fields fs) in
      if is_undefined v then rest else kept

abbrev pub migrated_template : String
migrated_template =
    "Submission summary: submitted={{submittedCount}}, errors={{errorCount}}, unconfirmed={{unconfirmedPrintCount}}, missing types={{missingMaterialTypeCount}}, new missing types={{newMissingMaterialTypeCount}}, recovered types={{recoveredMaterialTypeCount}}, network affected={{networkAffectedCount}}"

abbrev pub v2_keys : List String
v2_keys =
    "version" ∷ "url" ∷ "method" ∷ "bodyTemplate" ∷ "eventTemplates" ∷ "successStatuses"
    ∷ "response" ∷ []

-- The properties of unknown names follow.
abbrev pub carry_unknown : Properties → Properties → Properties
carry_unknown no_property to = to
carry_unknown (property k v fs) to =
    carry_unknown fs (if contains v2_keys k then to else set_field k v to)

abbrev pub with_response : Value → Properties
with_response v = if is_undefined v then no_property else property "response" v no_property

abbrev pub migrated_fields : Properties → Properties
migrated_fields fs = property "version" (nat 2) (
    property "url" (lookup "url" fs) (
      property "method" (lookup "method" fs) (
        property "bodyTemplate" (lookup "bodyTemplate" fs) (
          property "eventTemplates" (object (("submission.summary", str migrated_template) ∷ [])) (
            property "successStatuses" (lookup "successStatuses" fs)
              (with_response (lookup "response" fs)))))))

-- migrateNotificationAdapter
unfoldable pub migrate_notification_adapter : Value → Value
migrate_notification_adapter (obj fs) =
    if is_nat (lookup "version" fs) 1
    then json_clone (obj (carry_unknown fs (migrated_fields fs)))
    else json_clone (obj fs)
migrate_notification_adapter v = v

abbrev pub no_errors : List String → Bool
no_errors [] = true
no_errors (e ∷ es) = false

abbrev is_blank_text : Value → Bool
is_blank_text (str s) = is_blank s
is_blank_text _ = true

abbrev adapter_statuses : List Value → ℕ → List String
adapter_statuses [] n = []
adapter_statuses (v ∷ vs) n =
    unless (int_between 100 599 v)
      (indexed "notificationAdapter.successStatuses" n ∷ " must be an HTTP status integer" ∷ [])
    ++ adapter_statuses vs (n + 1)

abbrev adapter_success_statuses : Value → List String
adapter_success_statuses (arr (element v vs)) = adapter_statuses (v ∷ items vs) 0
adapter_success_statuses _ =
    unless false ("notificationAdapter.successStatuses must be a non-empty array" ∷ [])

abbrev is_success_value : Value → Bool
is_success_value (str s) = not (is_blank s)
is_success_value (num (int z)) = true
is_success_value (num (frac s)) = true
is_success_value (bool b) = true
is_success_value _ = false

abbrev success_values_from : List Value → ℕ → List String
success_values_from [] n = []
success_values_from (v ∷ vs) n =
    unless (is_success_value v) (
      indexed "notificationAdapter.response.successValues" n
      ∷ " must be a string, number or boolean"
      ∷ [])
    ++ success_values_from vs (n + 1)

abbrev success_values : Value → List String
success_values (arr (element v vs)) = success_values_from (v ∷ items vs) 0
success_values _ =
    unless false ("notificationAdapter.response.successValues must be a non-empty array" ∷ [])

abbrev adapter_response : Value → List String
adapter_response undefined = []
adapter_response (obj fs) =
    unsupported_in "notificationAdapter.response" ("codePath" ∷ "successValues" ∷ [])
      (field_names fs)
    ++ unless (not (is_blank_text (lookup "codePath" fs)))
        ("notificationAdapter.response.codePath is required" ∷ [])
    ++ success_values (lookup "successValues" fs)
adapter_response _ = unless false ("notificationAdapter.response must be an object" ∷ [])

abbrev adapter_body : Value → List String
adapter_body body =
    if is_json_container body
    then unless (contains_message body)
        ("notificationAdapter.bodyTemplate must contain {{message}}" ∷ [])
    else unless false ("notificationAdapter.bodyTemplate must be a JSON object or array" ∷ [])

module _ (protocol_of : String → Option String) where
  abbrev adapter_url : Value → List String
  adapter_url url =
      if is_blank_text url
      then unless false ("notificationAdapter.url is required" ∷ [])
      else url_errors protocol_of "notificationAdapter.url" url

  abbrev adapter_fields : Properties → List String
  adapter_fields fs =
      unsupported_in "notificationAdapter" v2_keys (field_names fs)
      ++ unless (is_nat (lookup "version" fs) 2) ("notificationAdapter.version must be 2" ∷ [])
      ++ adapter_url (lookup "url" fs)
      ++ method_errors "notificationAdapter" (lookup "method" fs)
      ++ adapter_body (lookup "bodyTemplate" fs)
      ++ validate_event_templates (lookup "eventTemplates" fs)
      ++ adapter_success_statuses (lookup "successStatuses" fs)
      ++ adapter_response (lookup "response" fs)

  -- validateNotificationAdapterV2
  unfoldable pub validate_notification_adapter_v2 : Value → List String
  validate_notification_adapter_v2 (obj fs) = adapter_fields fs
  validate_notification_adapter_v2 _ = "notificationAdapter must be an object" ∷ []

  -- validateNotificationAdapter
  unfoldable pub validate_notification_adapter : Value → List String
  validate_notification_adapter (obj fs) =
      if is_nat (lookup "version" fs) 3
      then validate_notification_adapter_v3 protocol_of (obj fs)
      else validate_notification_adapter_v2 (obj fs)
  validate_notification_adapter _ = "notificationAdapter must be an object" ∷ []

  -- notificationEventTypes
  unfoldable pub notification_event_types : Value → List String
  notification_event_types adapter =
      if is_nat (get adapter "version") 3
      then (if no_errors (validate_notification_adapter_v3 protocol_of adapter)
          then "submission.round" ∷ []
          else [])
      else own_keys (get adapter "eventTemplates")

-- ===== src/Notification/Tests.antt =====
-- Concrete templates, adapters and events.
use autoform_panel.Notification.Time.{parse_iso_offset_date_time}
use autoform_panel.Js.Print.{to_text}
use autoform_panel.Notification.Render.Template.Nesting.{render_round_template-blocks}
use autoform_panel.Notification.Templates.Termination.{controlled_template_tokens-returns}
use autoform_panel.Notification.Event.Valid.{validate_notification_event-IsEvent, IsEvent}
use autoform_panel.Notification.Validate.Migrated.{migrate_notification_adapter-events}
use autoform_panel.Notification.Delivery.Valid.{
  validate_notification_adapter_v3-HasDelivery, HasDelivery,
}
use autoform_panel.Notification.Formatters.{
  formatter_template, formatter_text, validate_formatter, validate_v3_formatters,
  validate_round_message_template, round_allowed,
}
use autoform_panel.Notification.Render.Template.Bounds.{render_round_template-bounded}
use autoform_panel.Notification.Round.{validate_template_container}
use autoform_panel.Notification.Event.{valid_event_value, validate_notification_event}
use autoform_panel.Notification.Delivery.{
  is_method, validate_delivery, validate_notification_adapter_v3,
}
use autoform_panel.Notification.{
  template_placeholders, is_event_type, bounded_string, includes_text, contains_message,
  validate_event_templates,
}
use autoform_panel.Js.Text.{is_blank, numeral, utf16_length}
use autoform_panel.Notification.Render.Body.{render_notification_body}
use autoform_panel.Notification.Render.Template.{
  round_field_truthy, append_text, render_tokens, render_round_template,
}
use autoform_panel.Notification.Render.Body.Kept.{render_notification_body-IsKept, IsKept}
use autoform_panel.Notification.Templates.Print.{
  controlled_template_tokens-Reads, all_named, depth_after, print_tokens,
}
use autoform_panel.Notification.Validate.{
  json_clone, migrate_notification_adapter, notification_event_types,
}
use autoform_panel.Notification.Round.Container.{
  validate_template_container-bounded, longest, width, height,
}
use autoform_panel.Notification.Templates.{
  conditional_field, is_data_key, after_prefix, split_pair, piece, block_token, if_end, text,
  if_start, finish, start, placeholder, token_loop, controlled_template_tokens, Scan,
}
use autoform_panel.Catalog.Result.{ok, Result}
use autoform_panel.Js.Value.{
  no_element, element, str, bool, arr, object, obj, nat, from_pairs, is_nat, Value, Properties,
}
use autoform_panel.Notification.Render.Template.Blocks.{printed, append_all, flatten, Block}
use autoform_panel.Prelude.{
  ◌≤◌, String, ◌≡◌, refl, Bool, true, not, Option, none, some, List, [], ◌∷◌, str_eq, if◌then◌else◌,
  length,
}

unfoldable pub notification_checks : Unit {0}
unfolding validate_notification_adapter_v3 validate_delivery validate_template_container
    contains_message includes_text bounded_string is_method validate_round_message_template
    validate_v3_formatters validate_formatter formatter_text formatter_template
    controlled_template_tokens token_loop block_token piece split_pair after_prefix is_data_key
    conditional_field numeral to_text valid_event_value validate_notification_event is_event_type
    render_round_template render_tokens append_text migrate_notification_adapter
    notification_event_types json_clone round_field_truthy validate_event_templates
    template_placeholders is_blank height width longest parse_iso_offset_date_time
notification_checks = tt

abbrev pub round_template : String
round_template = "{{profileLabel}}{{#if errors}}: {{errors}}{{/if}}."

template_tokens :
    (controlled_template_tokens round_allowed "t" round_template).tokens
    ≡ placeholder "profileLabel"
      ∷ if_start "errors"
      ∷ text ": "
      ∷ placeholder "errors"
      ∷ if_end
      ∷ text "."
      ∷ []
unfolding notification_checks
template_tokens = refl

quiet : (controlled_template_tokens round_allowed "t" round_template).errors ≡ []
unfolding notification_checks
quiet = refl

stray :
    (controlled_template_tokens round_allowed "t" "a}}b{{count}}{{").errors
    ≡ "t contains an unexpected }} token" ∷ "t uses unsupported placeholder {{count}}"
      ∷ "t contains an unterminated {{ token" ∷ []
unfolding notification_checks
stray = refl

controlled_template_tokens-returns_example :
    (last : Scan) × (token_loop 3 round_allowed "t" "}}" start ≡ some last)
    × (controlled_template_tokens round_allowed "t" "}}" ≡ finish "t" (some last))
controlled_template_tokens-returns_example =
    controlled_template_tokens-returns round_allowed "t" "}}"

controlled_template_tokens-Reads_example :
    (print_tokens (controlled_template_tokens round_allowed "t" round_template).tokens
      ≡ round_template)
    × (depth_after 4 (some 0) (controlled_template_tokens round_allowed "t" round_template).tokens
        ≡ some 0)
    × (all_named round_allowed (controlled_template_tokens round_allowed "t" round_template).tokens
        ≡ true)
    × (length (controlled_template_tokens round_allowed "t" round_template).tokens ≤ 129)
controlled_template_tokens-Reads_example =
    controlled_template_tokens-Reads round_allowed "t" round_template quiet

abbrev shown_value : String → Result String
shown_value field = ok field

abbrev no_errors_field : String → Bool
no_errors_field field = not (str_eq field "errors")

rendered : render_round_template shown_value no_errors_field round_template ≡ ok "profileLabel."
unfolding notification_checks
rendered = refl

render_round_template-bounded_example : utf16_length "profileLabel." ≤ 128000
render_round_template-bounded_example =
    render_round_template-bounded shown_value no_errors_field round_template "profileLabel."
      rendered

quiet_message :
    (controlled_template_tokens round_allowed "messageTemplate" round_template).errors ≡ []
unfolding notification_checks
quiet_message = refl

render_round_template-blocks_example :
    (b : Block) × (print_tokens (flatten b) ≡ round_template)
    × (render_round_template shown_value no_errors_field round_template
        ≡ append_all "" (printed shown_value no_errors_field b))
render_round_template-blocks_example =
    render_round_template-blocks shown_value no_errors_field round_template quiet_message

abbrev pub protocol_known : String → Option String
protocol_known url = if str_eq url "https://h" then some "https:" else none

abbrev pub round_delivery : Value
round_delivery = object (
    ("url", str "https://h")
    ∷ ("method", str "post")
    ∷ ("bodyTemplate", object (("text", str "{{message}}") ∷ []))
    ∷ ("messageTemplate", str round_template)
    ∷ ("successStatuses", arr (element (nat 200) no_element))
    ∷ ("response", object (("textContains", str "ok") ∷ []))
    ∷ ("timeoutMs", nat 1000)
    ∷ [])

abbrev pub round_deliveries : Properties
round_deliveries = from_pairs (("summary", round_delivery) ∷ ("problem", round_delivery) ∷ [])

abbrev pub round_adapter : Properties
round_adapter = from_pairs (("version", nat 3) ∷ ("deliveries", obj round_deliveries) ∷ [])

pub adapter_quiet : validate_notification_adapter_v3 protocol_known (obj round_adapter) ≡ []
unfolding notification_checks
adapter_quiet = refl

validate_notification_adapter_v3-HasDelivery_example :
    (ds : Properties) × (obj round_deliveries ≡ obj ds)
    × HasDelivery protocol_known "summary" ds
    × HasDelivery protocol_known "problem" ds
validate_notification_adapter_v3-HasDelivery_example =
    validate_notification_adapter_v3-HasDelivery protocol_known round_adapter adapter_quiet

abbrev nested_body : Value
nested_body = object (("a", arr (element (str "{{message}}") no_element)) ∷ [])

body_quiet : validate_template_container nested_body "b" 0 ≡ []
unfolding notification_checks
body_quiet = refl

validate_template_container-bounded_example :
    (height nested_body ≤ 8) × (width nested_body ≤ 100) × (longest nested_body ≤ 4000)
validate_template_container-bounded_example =
    validate_template_container-bounded nested_body "b" body_quiet

abbrev old_adapter : Properties
old_adapter = from_pairs (
    ("version", nat 1)
    ∷ ("url", str "https://h")
    ∷ ("eventTemplates", object (("runtime.failure", str "x") ∷ []))
    ∷ [])

migrate_notification_adapter-events_example :
    notification_event_types protocol_known (migrate_notification_adapter (obj old_adapter))
    ≡ "submission.summary" ∷ []
migrate_notification_adapter-events_example =
    migrate_notification_adapter-events protocol_known old_adapter refl

abbrev body_template : Value
body_template = object (("text", str "{{message}}") ∷ ("kind", str "markdown") ∷ [])

abbrev body_values : Value
body_values = object (("message", str "5 items") ∷ [])

render_notification_body-IsKept_example :
    IsKept body_template (render_notification_body body_template body_values)
render_notification_body-IsKept_example = render_notification_body-IsKept body_template body_values

abbrev summary_sent : Value
summary_sent = object (
    ("success", bool true)
    ∷ ("submittedCount", nat 3)
    ∷ ("errorCount", nat 0)
    ∷ ("unconfirmedPrintCount", nat 0)
    ∷ ("missingMaterialTypeCount", nat 0)
    ∷ ("newMissingMaterialTypeCount", nat 0)
    ∷ ("recoveredMaterialTypeCount", nat 0)
    ∷ ("networkAffectedCount", nat 0)
    ∷ [])

abbrev summary_event : Properties
summary_event =
    from_pairs
      (("version", nat 2) ∷ ("type", str "submission.summary") ∷ ("data", summary_sent) ∷ [])

abbrev no_names : String → List String
no_names type = []

event_quiet : validate_notification_event no_names (obj summary_event) ≡ []
unfolding notification_checks
event_quiet = refl

validate_notification_event-IsEvent_example :
    (is_nat (nat 2) 2 ≡ true)
    × ((type : String) × (str "submission.summary" ≡ str type) × IsEvent no_names type summary_sent)
validate_notification_event-IsEvent_example =
    validate_notification_event-IsEvent no_names summary_event refl event_quiet

abbrev names_of_function : String → List String
names_of_function type = "length" ∷ "name" ∷ []

-- An event whose type is such a name may hold any text.
inherited_event :
    validate_notification_event names_of_function (
      object (
        ("version", nat 2)
        ∷ ("type", str "constructor")
        ∷ ("data", object (("name", str "any text") ∷ []))
        ∷ []))
    ≡ []
unfolding notification_checks
inherited_event = refl

-- A name that every object inherits passes as an event type.
inherited_type : validate_event_templates (object (("constructor", str "x") ∷ [])) ≡ []
unfolding notification_checks
inherited_type = refl

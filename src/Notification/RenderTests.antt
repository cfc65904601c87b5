-- ===== src/Notification/RenderTests.antt =====
-- A concrete round and its message.
use autoform_panel.Notification.{validate_string_array}
use autoform_panel.Catalog.Result.{ok}
use autoform_panel.Notification.Round.{
  missing_item, validate_missing_items, round_values, validate_submission_round_data,
}
use autoform_panel.Notification.Tests.{
  adapter_quiet, round_adapter, protocol_known, notification_checks,
}
use autoform_panel.Notification.Render.Template.{render_round_delivery_message}
use autoform_panel.Notification.Render.RoundValue.{
  render_simple, round_placeholder_text, format_round_value,
}
use autoform_panel.Js.Value.{
  element, nat, str, no_element, from_list, bool, object, obj, from_pairs, arr, Value, Properties,
}
use autoform_panel.Notification.Render.Template.Delivered.{
  render_round_delivery_message-Delivered, Delivered,
}
use autoform_panel.Prelude.{String, ◌≡◌, refl, false, [], ◌∷◌}

unfoldable render_checks : Unit {0}
unfolding notification_checks round_values validate_submission_round_data validate_missing_items
    validate_string_array missing_item render_round_delivery_message format_round_value
    round_placeholder_text render_simple
render_checks = tt

abbrev no_texts : Value
no_texts = arr no_element

abbrev round_sent : Properties
round_sent = from_pairs (
    ("success", bool false)
    ∷ ("profileLabel", str "A")
    ∷ ("operatorLabel", str "")
    ∷ ("completedAt", str "2024-02-29T23:05:00Z")
    ∷ ("submittedCount", nat 2)
    ∷ ("missingItems", no_texts)
    ∷ ("newMissingItems", no_texts)
    ∷ ("recoveredItems", no_texts)
    ∷ ("errors", arr (element (str "late") no_element))
    ∷ ("unconfirmedIdentifiers", no_texts)
    ∷ ("networkAffectedIdentifiers", no_texts)
    ∷ [])

round_quiet : validate_submission_round_data (obj round_sent) ≡ []
unfolding render_checks
round_quiet = refl

abbrev no_quote : Value → String
no_quote v = ""

message :
    render_round_delivery_message protocol_known no_quote
      (obj round_adapter)
      "problem"
      (obj round_sent)
    ≡ ok "A: late."
unfolding render_checks
message = refl

render_round_delivery_message-Delivered_example : Delivered (
    render_round_delivery_message protocol_known no_quote
      (obj round_adapter)
      "problem"
      (obj round_sent))
render_round_delivery_message-Delivered_example =
    render_round_delivery_message-Delivered protocol_known no_quote round_adapter round_sent
      "problem" refl refl adapter_quiet round_quiet

abbrev counted_items : Value
counted_items = arr (
    from_list (
      object (("label", str "x") ∷ ("affectedCount", nat 1) ∷ [])
      ∷ object (("label", str "y") ∷ ("affectedCount", nat 4) ∷ [])
      ∷ object (("label", str "z") ∷ ("affectedCount", nat 1) ∷ [])
      ∷ []))

abbrev count_formatter : Value
count_formatter = object (
    ("type", str "groupedCountList")
    ∷ ("empty", str "none")
    ∷ ("groupSeparator", str "; ")
    ∷ ("itemSeparator", str ",")
    ∷ ("groupTemplate", str "{{count}}: {{items}}")
    ∷ ("itemTemplate", str "{{index}}.{{label}}")
    ∷ [])

groups : format_round_value no_quote counted_items count_formatter ≡ ok "4: 1.y; 1: 1.x,2.z"
unfolding render_checks
groups = refl

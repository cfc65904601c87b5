-- ===== src/Notification/Render/Template.antt =====
-- Round messages of api/notification-adapter-render.js: conditional blocks and the limit
-- of the length.
pub mod Bounds
pub mod Blocks
pub mod Nesting
pub mod Formatted
pub mod Sent
pub mod Delivered
use autoform_panel.Notification.Render.RoundValue.{format_round_value}
use autoform_panel.Notification.Delivery.{validate_notification_adapter_v3}
use autoform_panel.Notification.Time.{parse_iso_offset_date_time}
use autoform_panel.Js.Print.{text_or, to_text}
use autoform_panel.Js.Text.{utf16_length, numeral}
use autoform_panel.Notification.Validate.{validate_notification_adapter_v2, no_errors}
use autoform_panel.Notification.Render.{value_in, failed_with}
use autoform_panel.Stats.{is_empty, glue}
use autoform_panel.Js.Value.{
  undefined, null, negsuc, bool, pos, int, contains, num, lookup, items, is_nat, field_names,
  truthy, str, obj, is_undefined, is_int, get, arr, ℤ, Value,
}
use autoform_panel.Notification.Templates.{
  if_end, placeholder, if_start, text, controlled_template_tokens, Token, Scan,
}
use autoform_panel.Notification.Formatters.{
  grouped_count_list, text_list, item_count, iso_local_seconds, simple_allowed, round_allowed,
  formatter_type, FormatterType,
}
use autoform_panel.Prelude.{
  ℕ, ◌+◌, String, Bool, true, false, not, ◌&&◌, Option, none, some, List, [], ◌∷◌, ◌++◌, map,
  str_eq, ltb, leb, ◌==◌, if◌then◌else◌, length,
}
use autoform_panel.Catalog.Result.{Result, ok, err, ◌>>=◌}
use mathlib.Core.Option
use Prim.Native.String

-- roundFieldTruthy
unfoldable pub round_field_truthy : Value → Bool
round_field_truthy (arr vs) = not (is_empty (items vs))
round_field_truthy (str s) = not (str_eq s "")
round_field_truthy (num (int (pos n))) = not (n == 0)
round_field_truthy (bool b) = b
round_field_truthy null = false
round_field_truthy undefined = false
round_field_truthy _ = true

abbrev pub max_rendered_length : ℕ
max_rendered_length = 128000

-- `append`
unfoldable pub append_text : String → String → Result String
append_text rendered s =
    if ltb max_rendered_length (utf16_length rendered + utf16_length s)
    then failed_with "notification round message exceeds the rendered length limit"
    else ok (String.◌++◌ rendered s)

-- `active.at(-1)`, the top of the stack
abbrev pub top : List Bool → Bool
top [] = false
top (b ∷ bs) = b

abbrev pub pop : List Bool → List Bool
pop [] = []
pop (b ∷ bs) = bs

module _ (value_text : String → Result String) (holds : String → Bool) where
  -- The loop over the tokens.
  unfoldable pub render_tokens : List Token → List Bool → String → Result String
  render_tokens [] active rendered = ok rendered
  render_tokens (if_start field ∷ ts) active rendered =
      render_tokens ts ((top active && holds field) ∷ active) rendered
  render_tokens (if_end ∷ ts) active rendered = render_tokens ts (pop active) rendered
  render_tokens (text s ∷ ts) active rendered =
      (if top active then append_text rendered s else ok rendered) >>= render_tokens ts active
  render_tokens (placeholder field ∷ ts) active rendered =
      (if top active then value_text field >>= append_text rendered else ok rendered)
      >>= render_tokens ts active

  abbrev pub rendered_scan : Scan → Result String
  rendered_scan scan =
      if no_errors scan.errors
      then render_tokens scan.tokens (true ∷ []) ""
      else failed_with "notification round message template is invalid"

  -- renderRoundTemplate
  unfoldable pub render_round_template : String → Result String
  render_round_template template =
      rendered_scan (controlled_template_tokens round_allowed "messageTemplate" template)

abbrev pub round_value : Value → String → Value
round_value sent field = value_in "submission.round" sent field

abbrev pub round_text : (Value → String) → Value → Value → String → Result String
round_text quote formatters sent field =
    if str_eq field "type"
    then ok (to_text (round_value sent "type"))
    else format_round_value quote (round_value sent field) (get formatters field)

abbrev pub unconfigured : {A : Type 0} → Result A
unconfigured = failed_with "notification round delivery is not configured"

abbrev pub delivery_message : (Value → String) → Value → Value → Value → Result String
delivery_message quote formatters sent (str template) =
    render_round_template (round_text quote formatters sent)
      (λ (field : String). round_field_truthy (round_value sent field)) template
delivery_message quote formatters sent _ = unconfigured

-- renderRoundDeliveryMessage
unfoldable pub render_round_delivery_message :
    (String → Option String) → (Value → String) → Value → String → Value → Result String
render_round_delivery_message protocol_of quote adapter name sent =
    let delivery = get (get adapter "deliveries") name in
    if is_nat (get adapter "version") 3
      && contains ("summary" ∷ "problem" ∷ []) name
      && no_errors (validate_notification_adapter_v3 protocol_of adapter)
    then delivery_message quote (get delivery "formatters") sent (get delivery "messageTemplate")
    else unconfigured

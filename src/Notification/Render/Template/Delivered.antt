-- ===== src/Notification/Render/Template/Delivered.antt =====
-- Messages of adapters and data that were validated.
use autoform_panel.Notification.Render.Template.Sent.{validate_submission_round_data-FitsShape}
use autoform_panel.Notification.Templates.Paths.{controlled_template_tokens-path}
use autoform_panel.Notification.Templates.Print.{controlled_template_tokens-Reads, all_named}
use autoform_panel.Notification.Delivery.{delivery_path, validate_notification_adapter_v3}
use autoform_panel.Stats.{at_field}
use autoform_panel.Notification.Templates.{
  if_end, placeholder, text, if_start, controlled_template_tokens, Token,
}
use autoform_panel.Notification.Formatters.{round_allowed, validate_v3_formatters}
use autoform_panel.Notification.Round.{validate_submission_round_data, round_fields}
use autoform_panel.Notification.Render.{to_text, failed_with}
use autoform_panel.Notification.Delivery.Valid.{
  HasDelivery, validate_notification_adapter_v3-HasDelivery, IsDelivery,
}
use autoform_panel.Notification.Render.Template.Formatted.{format_round_value-Returns, Returns}
use autoform_panel.Notification.Render.Template.{
  round_value, round_text, pop, top, delivery_message, render_tokens, render_round_template,
  utf16_length, render_round_delivery_message, max_rendered_length, append_text,
}
use autoform_panel.Js.Value.{obj, lookup, is_nat, contains, Properties, Value}
use autoform_panel.Catalog.Result.{ok, ◌>>=◌, Result}
use autoform_panel.Prelude.{
  eq_iff, str_eq, ◌+◌, String, ◌≡◌, refl, ◌⊎◌, inl, inr, Bool, true, false, ◌&&◌, Option, List, [],
  ◌∷◌, ltb, if◌then◌else◌, &&-eq-true, Bool-cases,
}
use Prim.Native.String

-- The code returns a text, or throws because a message would be too long.
abbrev pub Delivered : Result String → Type 0
Delivered r =
    Returns r ⊎ (r ≡ failed_with "notification round message exceeds the rendered length limit")

append_text-Delivered : (rendered s : String) → Delivered (append_text rendered s)
unfolding append_text
append_text-Delivered rendered s =
    elim (Bool-cases (ltb max_rendered_length (utf16_length rendered + utf16_length s))) [
      | inl e ↦ inr (rw e refl)
      | inr e ↦ inl (String.◌++◌ rendered s, rw e refl)
    ]

bind-Delivered :
    (r : Result String) (k : String → Result String)
    → Delivered r
    → ((s : String) → Delivered (k s))
    → Delivered (r >>= k)
bind-Delivered r k (inl (s, e)) each = rw e (each s)
bind-Delivered r k (inr e) each = inr (rw e refl)

module _ (value_text : String → Result String) (holds : String → Bool)
    (each : (f : String) → contains ("type" ∷ round_fields) f ≡ true → Returns (value_text f)) where
  step-Delivered :
      (act : Bool) (added : Result String) (rendered : String)
      → Returns added
      → Delivered (if act then added >>= append_text rendered else ok rendered)
  step-Delivered true added rendered (s, e) = rw e (append_text-Delivered rendered s)
  step-Delivered false added rendered returns = inl (rendered, refl)

  render_tokens-Delivered :
      (ts : List Token) (active : List Bool) (rendered : String)
      → all_named round_allowed ts ≡ true
      → Delivered (render_tokens value_text holds ts active rendered)
  unfolding render_tokens
  render_tokens-Delivered [] active rendered h = inl (rendered, refl)
  render_tokens-Delivered (if_start field ∷ ts) active rendered h =
      let (listed, others) = &&-eq-true _ (all_named round_allowed ts) h in
      render_tokens-Delivered ts ((top active && holds field) ∷ active) rendered others
  render_tokens-Delivered (if_end ∷ ts) active rendered h =
      render_tokens-Delivered ts (pop active) rendered h
  render_tokens-Delivered (text s ∷ ts) active rendered h =
      bind-Delivered _ (render_tokens value_text holds ts active)
        (step-Delivered (top active) (ok s) rendered (s, refl))
        (λ next. render_tokens-Delivered ts active next h)
  render_tokens-Delivered (placeholder field ∷ ts) active rendered h =
      let (listed, others) =
        &&-eq-true (contains ("type" ∷ round_fields) field) (all_named round_allowed ts) h in
      bind-Delivered _ (render_tokens value_text holds ts active)
        (step-Delivered (top active) (value_text field) rendered (each field listed))
        (λ next. render_tokens-Delivered ts active next others)

  render_round_template-Delivered :
      (path template : String)
      → (controlled_template_tokens round_allowed path template).errors ≡ []
      → Delivered (render_round_template value_text holds template)
  unfolding render_round_template
  render_round_template-Delivered path template h =
      let same = controlled_template_tokens-path round_allowed path "messageTemplate" template h in
      let (prints, depth, named, few) =
        controlled_template_tokens-Reads round_allowed path template h in
      rw (same, h)
        (render_tokens-Delivered (controlled_template_tokens round_allowed path template).tokens
          (true ∷ []) "" named)

either-Returns :
    (test : Bool) (s : String) (r : Result String) → Returns r → Returns (if test then ok s else r)
either-Returns true s r returns = (s, refl)
either-Returns false s r returns = returns

module _ (protocol_of : String → Option String) (quote : Value → String) where
  round_text-Returns :
      (path : String) (formatters : Value) (sent : Properties) (field : String)
      → validate_v3_formatters formatters (at_field path "formatters") ≡ []
      → validate_submission_round_data (obj sent) ≡ []
      → Returns (round_text quote formatters (obj sent) field)
  round_text-Returns path formatters sent field h valid =
      either-Returns (str_eq field "type") (to_text (round_value (obj sent) "type")) _ (
        format_round_value-Returns quote (at_field path "formatters") field
          (round_value (obj sent) field) (validate_submission_round_data-FitsShape sent field valid)
          formatters h)

  named-HasDelivery :
      (ds : Properties) (name : String)
      → contains ("summary" ∷ "problem" ∷ []) name ≡ true
      → HasDelivery protocol_of "summary" ds
      → HasDelivery protocol_of "problem" ds
      → HasDelivery protocol_of name ds
  named-HasDelivery ds name known summary problem = elim (Bool-cases (str_eq "summary" name)) [
    | inl e ↦ rw (← (eq_iff "summary" name).0 e) summary
    | inr e ↦ elim (Bool-cases (str_eq "problem" name)) [
      | inl f ↦ rw (← (eq_iff "problem" name).0 f) problem
      | inr f ↦ let broken = rw (e, f) at known in cc
    ]
  ]

  delivery_message-Delivered :
      (path : String) (fs sent : Properties)
      → IsDelivery protocol_of path fs
      → validate_v3_formatters (lookup "formatters" fs) (at_field path "formatters") ≡ []
      → validate_submission_round_data (obj sent) ≡ []
      → Delivered
          (delivery_message quote (lookup "formatters" fs) (obj sent) (lookup "messageTemplate" fs))
  delivery_message-Delivered path fs sent delivery formatters valid =
      let (template, same, quiet) = delivery.template in
      rw same (
        render_round_template-Delivered _ _
          (λ f listed. round_text-Returns path (lookup "formatters" fs) sent f formatters valid)
          (at_field path "messageTemplate") template quiet)

  -- With an adapter of the third version and round data that were both accepted, either delivery
  -- renders its message, and what can be thrown is only that the message is too long.
  pub render_round_delivery_message-Delivered :
      (fs sent : Properties) (name : String)
      → is_nat (lookup "version" fs) 3 ≡ true
      → contains ("summary" ∷ "problem" ∷ []) name ≡ true
      → validate_notification_adapter_v3 protocol_of (obj fs) ≡ []
      → validate_submission_round_data (obj sent) ≡ []
      → Delivered (render_round_delivery_message protocol_of quote (obj fs) name (obj sent))
  unfolding render_round_delivery_message
  render_round_delivery_message-Delivered fs sent name version known accepted valid =
      let (ds, same, summary, problem) =
        validate_notification_adapter_v3-HasDelivery protocol_of fs accepted in
      let (delivery, found, is_delivery, formatters) : HasDelivery protocol_of name ds =
        named-HasDelivery ds name known summary problem in
      rw (version, known, accepted, same, found)
        (delivery_message-Delivered (delivery_path name) delivery sent is_delivery formatters valid)

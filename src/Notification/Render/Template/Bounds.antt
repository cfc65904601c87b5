-- ===== src/Notification/Render/Template/Bounds.antt =====
-- The length of a round message.
use autoform_panel.Notification.Validate.{no_errors}
use autoform_panel.Notification.Formatters.{round_allowed}
use autoform_panel.Notification.Templates.{
  if_end, placeholder, text, if_start, controlled_template_tokens, Token,
}
use autoform_panel.Notification.Templates.Split.{codes-append}
use autoform_panel.Js.Text.{codes, utf16_length, units}
use autoform_panel.Notification.Render.Template.{
  pop, top, render_tokens, render_round_template, max_rendered_length, append_text,
}
use autoform_panel.Catalog.Result.{ok, ◌>>=◌, bind-eq-ok, ok-injective, Result}
use autoform_panel.Prelude.{
  ℕ, ◌+◌, ◌≤◌, String, ◌≡◌, ap, ◌∙◌, inl, inr, Bool, true, false, ◌&&◌, List, [], ◌∷◌, ◌++◌, arith,
  ltb, if◌then◌else◌, Bool-cases,
}
use Prim.Native.String

pub units-append : (xs ys : List ℕ) → units (xs ++ ys) ≡ units xs + units ys
units-append [] ys = omega arith
units-append (x ∷ xs) ys = omega (arith, units-append xs ys)

pub utf16_length-append :
    (s t : String) → utf16_length (String.◌++◌ s t) ≡ utf16_length s + utf16_length t
utf16_length-append s t = ap units (codes-append s t) ∙ units-append (codes s) (codes t)

pub append_text-bounded :
    (rendered s t : String) → append_text rendered s ≡ ok t → utf16_length t ≤ max_rendered_length
unfolding append_text
append_text-bounded rendered s t h =
    elim (Bool-cases (ltb max_rendered_length (utf16_length rendered + utf16_length s))) [
      | inl e ↦ let broken = rw e at h in cc
      | inr e ↦
          let same : ◌≡◌ {A = Result String} (ok (String.◌++◌ rendered s)) (ok t) = rw e at h in
          rw (← ok-injective same, utf16_length-append rendered s) (ground (arith, e))
    ]

module _ (value_text : String → Result String) (holds : String → Bool) where
  -- What is appended keeps the text within the limit, if it does not throw.
  step-bounded :
      (act : Bool) (added : Result String) (rendered next : String)
      → utf16_length rendered ≤ max_rendered_length
      → (if act then added >>= append_text rendered else ok rendered) ≡ ok next
      → utf16_length next ≤ max_rendered_length
  step-bounded true added rendered next short h =
      let (s, e, f) = bind-eq-ok added (append_text rendered) h in
      append_text-bounded rendered s next f
  step-bounded false added rendered next short h = rw (← ok-injective h) short

  render_tokens-bounded :
      (ts : List Token) (active : List Bool) (rendered last : String)
      → utf16_length rendered ≤ max_rendered_length
      → render_tokens value_text holds ts active rendered ≡ ok last
      → utf16_length last ≤ max_rendered_length
  unfolding render_tokens
  render_tokens-bounded [] active rendered last short h = rw (← ok-injective h) short
  render_tokens-bounded (if_start field ∷ ts) active rendered last short h =
      render_tokens-bounded ts ((top active && holds field) ∷ active) rendered last short h
  render_tokens-bounded (if_end ∷ ts) active rendered last short h =
      render_tokens-bounded ts (pop active) rendered last short h
  render_tokens-bounded (text s ∷ ts) active rendered last short h =
      let (next, e, f) = bind-eq-ok _ (render_tokens value_text holds ts active) h in
      render_tokens-bounded ts active next last
        (step-bounded (top active) (ok s) rendered next short e) f
  render_tokens-bounded (placeholder field ∷ ts) active rendered last short h =
      let (next, e, f) = bind-eq-ok _ (render_tokens value_text holds ts active) h in
      render_tokens-bounded ts active next last
        (step-bounded (top active) (value_text field) rendered next short e) f

  -- A round message that is rendered has at most 128,000 UTF-16 units, whatever the values print.
  pub render_round_template-bounded :
      (template last : String)
      → render_round_template value_text holds template ≡ ok last
      → utf16_length last ≤ max_rendered_length
  unfolding render_round_template
  render_round_template-bounded template last h =
      let scan = controlled_template_tokens round_allowed "messageTemplate" template in
      elim (Bool-cases (no_errors scan.errors)) [
        | inl e ↦ render_tokens-bounded scan.tokens (true ∷ []) "" last (omega arith) (rw e at h)
        | inr e ↦ let broken = rw e at h in cc
      ]

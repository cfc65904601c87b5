-- ===== src/Notification/Render/Body.antt =====
-- renderNotificationBody of api/notification-adapter-render.js.
pub mod Kept
use autoform_panel.Js.Text.{codes}
use autoform_panel.Js.Print.{text_or, to_text}
use autoform_panel.Notification.Templates.{after_prefix}
use autoform_panel.Js.Value.{
  no_element, no_property, property, Properties, element, Elements, get, arr, str, object, obj,
  Value,
}
use autoform_panel.Prelude.{
  ◌++◌, ℕ, zero, suc, ◌-◌, Char, code, String, ◌≡◌, refl, not, none, some, [], ◌∷◌, ◌==◌,
  if◌then◌else◌, length,
}
use Prim.Native.String

abbrev pub one_char : Char → String
one_char c = String.◌∷◌ c ""

-- What a replacement text stands for at a match: `$$`, `$&`, "$`" and `$'` are special in it.
pub expand : (before matched after : String) → String → String
expand before matched after String.[] = ""
expand before matched after (String.◌∷◌ c String.[]) = one_char c
expand before matched after (String.◌∷◌ c (String.◌∷◌ d s)) =
    let rest = expand before matched after s in
    let plain = String.◌∷◌ c (expand before matched after (String.◌∷◌ d s)) in
    if not (code c == 36)
    then plain
    else if code d == 36
    then String.◌∷◌ c rest
    else if code d == 38
    then String.◌++◌ matched rest
    else if code d == 96
    then String.◌++◌ before rest
    else if code d == 39
    then String.◌++◌ after rest
    else plain

module _ (pattern replacement : String) where
  -- `skip` characters belong to the match before; `before` is what has been read.
  pub replace_from : ℕ → String → String → String
  replace_from skip before String.[] = ""
  replace_from (suc skip) before (String.◌∷◌ c s) =
      replace_from skip (String.◌++◌ before (one_char c)) s
  replace_from zero before (String.◌∷◌ c s) = elim (after_prefix pattern (String.◌∷◌ c s)) [
    | none ↦ String.◌∷◌ c (replace_from 0 (String.◌++◌ before (one_char c)) s)
    | some after ↦
        String.◌++◌ (expand before pattern after replacement)
          (replace_from (length (codes pattern) - 1) (String.◌++◌ before (one_char c)) s)
  ]

  -- `text.replaceAll(pattern, replacement)`, for a pattern that is not empty
  unfoldable pub replace_all : String → String
  unfolding replace_from expand after_prefix
  replace_all s = replace_from 0 "" s

unfoldable mutual
  pub body_with : Value → Value → Value
  body_with context (str s) = str (
      replace_all "{{type}}" (text_or (get context "type"))
        (replace_all "{{message}}" (text_or (get context "message")) s))
  body_with context (arr vs) = arr (body_elements context vs)
  body_with context (obj fs) = obj (body_fields context fs)
  body_with context v = v

  body_elements : Value → Elements → Elements
  body_elements context no_element = no_element
  body_elements context (element v vs) = element (body_with context v) (body_elements context vs)

  body_fields : Value → Properties → Properties
  body_fields context no_property = no_property
  body_fields context (property k v fs) = property k (body_with context v) (body_fields context fs)

abbrev pub context_of : Value → Value
context_of (obj fs) = obj fs
context_of (arr vs) = arr vs
context_of v = object (("message", v) ∷ [])

-- renderNotificationBody
unfoldable pub render_notification_body : Value → Value → Value
render_notification_body template values = body_with (context_of values) template

ordinary :
    render_notification_body
      (object (("text", str "{{type}}: {{message}}!") ∷ []))
      (object (("message", str "a") ∷ ("type", str "t") ∷ []))
    ≡ object (("text", str "t: a!") ∷ [])
unfolding render_notification_body body_with replace_all to_text
ordinary = refl

-- The sign `$` of a message is read as a pattern, and a placeholder in it is replaced again.
special :
    render_notification_body
      (str "{{message}}")
      (object (("message", str "$$5 {{type}}") ∷ ("type", str "t") ∷ []))
    ≡ str "$5 t"
unfolding render_notification_body body_with replace_all to_text
special = refl

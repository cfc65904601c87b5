-- ===== src/Notification/Render.antt =====
-- api/notification-adapter-render.js: messages, the values of a round, and what counts as delivered.
-- What the code throws is an error value, with the text of the source.
pub mod RoundValue
pub mod Template
pub mod Body
use autoform_panel.Js.Text.{split_dots}
use autoform_panel.Stats.{elements}
use autoform_panel.Js.Print.{text_or, to_text}
use autoform_panel.Notification.Templates.{text, after_prefix, is_data_key}
use autoform_panel.Notification.{utf16_length, numeral, includes_text, codes, braced}
use autoform_panel.Catalog.Result.{failed, err, Result}
use autoform_panel.Js.Value.{
  no_element, nat, items, truthy, num, lookup, is_nat, element, undefined, strict_eq, str, obj,
  has_own, get, bool, arr, Value, Elements,
}
use autoform_panel.Prelude.{
  ℕ, zero, suc, ◌+◌, Char, code, String, Bool, true, false, not, ◌&&◌, ◌||◌, Option, none, some,
  List, [], ◌∷◌, ◌++◌, str_eq, ◌==◌, if◌then◌else◌, length, any,
}
use autoform_panel.Catalog.Result.{ok}
use Prim.Native.String

abbrev pub failed_with : {A : Type 0} → String → Result A
failed_with message = err (failed message)

-- `{ type, ...data }[key]`, for a key that no prototype holds
abbrev pub value_in : String → Value → String → Value
value_in type sent key =
    if has_own sent key then get sent key else if str_eq key "type" then str type else undefined

-- `([A-Za-z][A-Za-z0-9]{0,63}|type)\}\}`, where the name ends at the braces
abbrev named : Option String → Option String
named none = none
named (some raw) = if is_data_key raw then some raw else none

-- The replacement of the placeholders; `skip` characters belong to the one before.
replace_keys : (String → String) → ℕ → String → String
replace_keys value_text skip String.[] = ""
replace_keys value_text (suc skip) (String.◌∷◌ c s) = replace_keys value_text skip s
replace_keys value_text zero (String.◌∷◌ c s) =
    elim (named (braced (after_prefix "{{" (String.◌∷◌ c s)))) [
      | none ↦ String.◌∷◌ c (replace_keys value_text 0 s)
      | some raw ↦ String.◌++◌ (value_text raw) (replace_keys value_text (length (codes raw) + 3) s)
    ]

abbrev event_message : String → Value → Value → Result String
event_message type sent (str template) =
    ok (replace_keys (λ (key : String). text_or (value_in type sent key)) 0 template)
event_message type sent _ = failed_with "notification event is not configured"

-- renderNotificationMessage
unfoldable pub render_notification_message : Value → String → Value → Result String
unfolding replace_keys
render_notification_message adapter type sent =
    event_message type sent (get (get adapter "eventTemplates") type)

abbrev has_items : Value → Bool
has_items (arr (element v vs)) = true
has_items _ = false

abbrev is_false : Value → Bool
is_false (bool false) = true
is_false _ = false

-- shouldSendRoundProblem
unfoldable pub should_send_round_problem : Value → Bool
should_send_round_problem sent =
    is_false (get sent "success")
    || has_items (get sent "errors")
    || has_items (get sent "unconfirmedIdentifiers")
    || has_items (get sent "networkAffectedIdentifiers")

abbrev char_at : ℕ → String → Value
char_at n String.[] = undefined
char_at zero (String.◌∷◌ c s) = str (String.◌∷◌ c "")
char_at (suc n) (String.◌∷◌ c s) = char_at n s

abbrev element_at : Elements → ℕ → String → Value
element_at no_element n key = undefined
element_at (element v vs) n key = if str_eq key (numeral n) then v else element_at vs (n + 1) key

abbrev char_of : String → ℕ → ℕ → String → Value
char_of s zero n key = undefined
char_of s (suc left) n key =
    if str_eq key (numeral n) then char_at n s else char_of s left (n + 1) key

-- `current[key]` for a key that no prototype holds; a text is indexed by its characters.
unfoldable pub member : Value → String → Value
member (obj fs) key = lookup key fs
member (arr vs) key = if str_eq key "length" then nat (length (items vs)) else element_at vs 0 key
member (str s) key =
    if str_eq key "length" then nat (utf16_length s) else char_of s (length (codes s)) 0 key
member _ key = undefined

abbrev follow : Value → List String → Value
follow v [] = v
follow v (k ∷ ks) = follow (member v k) ks

-- valueAt
unfoldable pub value_at : Value → String → Value
value_at v path = if str_eq path "" || str_eq path "$" then v else follow v (split_dots path)

-- `typeof value`
abbrev type_of : Value → String
type_of undefined = "undefined"
type_of (bool b) = "boolean"
type_of (num n) = "number"
type_of (str s) = "string"
type_of _ = "object"

-- sameBusinessValue
unfoldable pub same_business_value : Value → Value → Bool
same_business_value left right =
    if str_eq (type_of left) (type_of right)
    then strict_eq left right
    else str_eq (to_text left) (to_text right)

-- `statuses.includes(status)`
abbrev pub includes_status : Value → ℕ → Bool
includes_status (arr vs) status = any (λ (v : Value). is_nat v status) (items vs)
includes_status _ status = false

-- notificationResponseSucceeded, for an adapter that the validator accepts
unfoldable pub notification_response_succeeded : Value → ℕ → Value → Bool
notification_response_succeeded adapter status body =
    let response = get adapter "response" in
    includes_status (get adapter "successStatuses") status
    && (not (truthy response)
        || any (same_business_value (value_at body (to_text (get response "codePath"))))
            (elements (get response "successValues")))

abbrev marked : Value → Value → Bool
marked (str marker) (str raw_body) = not (str_eq marker "") && includes_text marker raw_body
marked _ _ = false

-- roundDeliveryResponseSucceeded
unfoldable pub round_delivery_response_succeeded : Value → ℕ → Value → Bool
round_delivery_response_succeeded delivery status raw_body =
    includes_status (get delivery "successStatuses") status
    && marked (get (get delivery "response") "textContains") raw_body

-- ===== src/Notification/Render/RoundValue.antt =====
-- How a value of round data is printed: the formatters of api/notification-adapter-render.js.
use autoform_panel.Notification.Validate.{no_errors}
use autoform_panel.Notification.Templates.{
  if_end, if_start, placeholder, text, controlled_template_tokens, Token, Scan,
}
use autoform_panel.Notification.Time.{parse_iso_offset_date_time}
use autoform_panel.Js.Print.{text_or, to_text}
use autoform_panel.Js.Text.{numeral}
use autoform_panel.Notification.Render.{failed_with}
use autoform_panel.Stats.{glue}
use autoform_panel.Js.Value.{
  bool, no_element, contains, negsuc, pos, int, num, lookup, items, field_names, truthy, str, obj,
  is_undefined, is_int, get, arr, ℤ, Value,
}
use autoform_panel.Notification.Formatters.{
  simple_allowed, grouped_count_list, text_list, item_count, iso_local_seconds, formatter_type,
  FormatterType,
}
use autoform_panel.Prelude.{
  ℕ, ◌+◌, String, Bool, true, false, Option, none, some, List, [], ◌∷◌, ◌++◌, map, str_eq, leb,
  ◌==◌, if◌then◌else◌, length,
}
use autoform_panel.Catalog.Result.{Result, ok, err, ◌>>=◌}
use mathlib.Core.Option
use Prim.Native.String

abbrev pub invalid_input : {A : Type 0} → Result A
invalid_input = failed_with "notification formatter input is invalid"

abbrev pub counted_text : String → String → String
counted_text label count = glue (label ∷ " × " ∷ count ∷ [])

-- `texts.join(separator)`
abbrev pub join : String → List String → String
join separator [] = ""
join separator (s ∷ []) = s
join separator (s ∷ t ∷ ts) = String.◌++◌ s (String.◌++◌ separator (join separator (t ∷ ts)))

module _ (quote : Value → String) where
  -- `quote` is JSON.stringify.
  abbrev pub item_fields : Value → Value → Value → String
  item_fields (str label) (num (int z)) item = counted_text label (to_text (num (int z)))
  item_fields label count item = quote item

  abbrev pub item_text : Value → String
  item_text (str s) = s
  item_text (obj fs) =
      if length (field_names fs) == 2
      then item_fields (lookup "label" fs) (lookup "affectedCount" fs) (obj fs)
      else quote (obj fs)
  item_text v = quote v

  -- roundPlaceholderText
  unfoldable pub round_placeholder_text : Value → String
  round_placeholder_text (arr vs) = join "\n" (map item_text (items vs))
  round_placeholder_text (obj fs) = quote (obj fs)
  round_placeholder_text v = text_or v

abbrev pub token_text : (String → String) → Token → String
token_text value (text s) = s
token_text value (placeholder field) = value field
token_text value (if_start field) = value field
token_text value if_end = ""

abbrev pub token_texts : (String → String) → List Token → String
token_texts value [] = ""
token_texts value (t ∷ ts) = String.◌++◌ (token_text value t) (token_texts value ts)

abbrev pub simple_text : (String → String) → Scan → Result String
simple_text value scan =
    if no_errors scan.errors
    then ok (token_texts value scan.tokens)
    else failed_with "notification formatter template is invalid"

-- renderSimpleControlledTemplate. A template without a length has no tokens; an array with elements
-- and an object with a length, which no formatter that is accepted has, are taken to throw.
unfoldable pub render_simple : List String → (String → String) → Value → Result String
render_simple placeholders value (str template) =
    simple_text value
      (controlled_template_tokens (simple_allowed placeholders) "formatter template" template)
render_simple placeholders value (num n) = ok ""
render_simple placeholders value (bool b) = ok ""
render_simple placeholders value (arr no_element) = ok ""
render_simple placeholders value (obj fs) =
    if contains (field_names fs) "length" then failed_with "TypeError" else ok ""
render_simple placeholders value _ = failed_with "TypeError"

abbrev pub texts_of : List Value → Option (List String)
texts_of [] = some []
texts_of (str s ∷ vs) = Option.map (λ (ss : List String). s ∷ ss) (texts_of vs)
texts_of _ = none

-- `array.join(separator)`
abbrev pub separator_text : Value → String
separator_text v = if is_undefined v then "," else to_text v

abbrev pub listed : Value → List String → Result String
listed formatter [] = ok (to_text (get formatter "empty"))
listed formatter (s ∷ ss) = ok (
    join (separator_text (get formatter "separator"))
      (map (String.◌++◌ (to_text (get formatter "prefixEach"))) (s ∷ ss)))

abbrev pub list_value : Value → Option (List String) → Result String
list_value formatter none = invalid_input
list_value formatter (some ss) = listed formatter ss

abbrev pub counted_of : Value → Value → Option (String × ℤ)
counted_of (str label) (num (int z)) = some (label, z)
counted_of label count = none

abbrev pub counted_item : Value → Option (String × ℤ)
counted_item (obj fs) = counted_of (lookup "label" fs) (lookup "affectedCount" fs)
counted_item _ = none

-- An entry of the map from counts to labels.
pub record Group : Type 0 where
  pub count : ℤ
  pub labels : List String

-- `grouped.get(count).push(item)`; the groups stand in the order of their first items.
abbrev pub add_to_group : String → ℤ → List Group → List Group
add_to_group label z [] = record { count = z; labels = label ∷ [] } ∷ []
add_to_group label z (g ∷ gs) =
    if is_int g.count z
    then record g { labels = g.labels ++ (label ∷ []) } ∷ gs
    else g ∷ add_to_group label z gs

abbrev pub grouped : List Value → List Group → Option (List Group)
grouped [] groups = some groups
grouped (v ∷ vs) groups = elim (counted_item v) [
  | none ↦ none
  | some (label, z) ↦ grouped vs (add_to_group label z groups)
]

abbrev pub int_le : ℤ → ℤ → Bool
int_le (pos m) (pos n) = leb m n
int_le (pos m) (negsuc n) = false
int_le (negsuc m) (pos n) = true
int_le (negsuc m) (negsuc n) = leb n m

abbrev pub insert_group : Group → List Group → List Group
insert_group g [] = g ∷ []
insert_group g (h ∷ hs) = if int_le h.count g.count then g ∷ h ∷ hs else h ∷ insert_group g hs

-- `.sort((left, right) => right.count - left.count)`
abbrev pub sort_groups : List Group → List Group
sort_groups [] = []
sort_groups (g ∷ gs) = insert_group g (sort_groups gs)

abbrev pub item_value : String → ℕ → ℤ → String → String
item_value label index z field =
    if str_eq field "index"
    then numeral index
    else if str_eq field "label"
    then label
    else if str_eq field "count"
    then to_text (num (int z))
    else ""

abbrev pub group_value : ℤ → String → String → String
group_value z items field =
    if str_eq field "count"
    then to_text (num (int z))
    else if str_eq field "items"
    then items
    else ""

abbrev pub and_more : Result (List String) → String → Result (List String)
and_more (ok ss) s = ok (s ∷ ss)
and_more (err fault) s = err fault

module _ (formatter : Value) where
  abbrev pub item_texts : ℤ → List String → ℕ → Result (List String)
  item_texts z [] n = ok []
  item_texts z (label ∷ labels) n = do
    s ←
        render_simple ("index" ∷ "label" ∷ "count" ∷ []) (item_value label (n + 1) z)
          (get formatter "itemTemplate")
    and_more (item_texts z labels (n + 1)) s

  abbrev pub group_text : Group → Result String
  group_text g = do
    ss ← item_texts g.count g.labels 0
    render_simple ("count" ∷ "items" ∷ [])
        (group_value g.count (join (separator_text (get formatter "itemSeparator")) ss))
        (get formatter "groupTemplate")

  abbrev pub group_texts : List Group → Result (List String)
  group_texts [] = ok []
  group_texts (g ∷ gs) = do s ← group_text g; and_more (group_texts gs) s

  abbrev pub groups_value : Option (List Group) → Result String
  groups_value none = invalid_input
  groups_value (some []) = ok (to_text (get formatter "empty"))
  groups_value (some (g ∷ gs)) = do
    ss ← group_texts (sort_groups (g ∷ gs))
    ok (join (separator_text (get formatter "groupSeparator")) ss)

abbrev pub time_value : Option String → Result String
time_value none = invalid_input
time_value (some local) = ok local

abbrev pub typed_value : Option FormatterType → Value → Value → Result String
typed_value none formatter v = failed_with "notification formatter is invalid"
typed_value (some item_count) formatter (arr vs) = ok (numeral (length (items vs)))
typed_value (some text_list) formatter (arr vs) = list_value formatter (texts_of (items vs))
typed_value (some iso_local_seconds) formatter v = time_value (parse_iso_offset_date_time v)
typed_value (some grouped_count_list) formatter (arr vs) =
    groups_value formatter (grouped (items vs) [])
typed_value (some type) formatter v = invalid_input

-- formatRoundValue
unfoldable pub format_round_value : (Value → String) → Value → Value → Result String
format_round_value quote v formatter =
    if truthy formatter
    then typed_value (formatter_type (get formatter "type")) formatter v
    else ok (round_placeholder_text quote v)

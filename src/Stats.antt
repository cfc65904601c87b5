-- ===== src/Stats.antt =====
-- api/daily-stats-primitives.js: the checks that the generations of the daily summary share. A
-- validator returns its errors in the order in which the source pushes them.
pub mod Distinct
pub mod Legacy
pub mod Qualified
pub mod Alternate
pub mod Tests
use Prim.Native.String
use autoform_panel.Js.Text.{utf16_length, units, trim, codes, numeral, is_hex}
use autoform_panel.Js.Value.{
  undefined, no_property, items, field_names, string_of, str, property, obj, has_own, get, bool,
  arr, contains, Value, Properties,
}
use autoform_panel.Prelude.{
  ℕ, ◌+◌, String, Bool, true, false, not, ◌&&◌, ◌||◌, Option, none, some, List, [], ◌∷◌, ◌++◌, map,
  str_eq, leb, ◌==◌, if◌then◌else◌, length, all,
}

-- The text of a template literal from its parts.
abbrev pub glue : List String → String
glue [] = ""
glue (s ∷ ss) = String.◌++◌ s (glue ss)

abbrev pub unless : Bool → List String → List String
unless test parts = if test then [] else glue parts ∷ []

abbrev pub indexed : String → ℕ → String
indexed path n = glue (path ∷ "[" ∷ numeral n ∷ "]" ∷ [])

abbrev pub at_field : String → String → String
at_field path key = glue (path ∷ "." ∷ key ∷ [])

abbrev unsupported : Properties → List String → String → List String
unsupported no_property allowed path = []
unsupported (property k v fs) allowed path =
    unless (contains allowed k) (path ∷ "." ∷ k ∷ " is unsupported" ∷ [])
    ++ unsupported fs allowed path

-- allowOnly
unfoldable pub allow_only : Value → List String → String → List String
allow_only (obj fs) allowed path = unsupported fs allowed path
allow_only _ allowed path = []

-- validateBoundedText; validateReferenceText is this with 256.
unfoldable pub bounded_text : Value → String → ℕ → String × List String
bounded_text (str s) path limit =
    if str_eq (trim s) "" then ("", unless false (path ∷ " must be a non-empty string" ∷ [])) else (
      trim s,
      unless (str_eq s (trim s)) (path ∷ " must not have surrounding whitespace" ∷ [])
          ++ unless (leb (utf16_length s) limit)
              (path ∷ " must contain at most " ∷ numeral limit ∷ " characters" ∷ []),
    )
bounded_text _ path limit = ("", unless false (path ∷ " must be a non-empty string" ∷ []))

abbrev pub max_id_length : ℕ
max_id_length = 128

abbrev pub max_label_length : ℕ
max_label_length = 160

abbrev pub max_result_key_length : ℕ
max_result_key_length = 256

abbrev pub max_result_keys : ℕ
max_result_keys = 128

abbrev locale_errors : Value → String → String → List String
locale_errors v path locale =
    if has_own v locale
    then (bounded_text (get v locale) (at_field path locale) max_label_length).1
    else []

-- validateLabelI18n
unfoldable pub label_i18n : Value → String → List String
label_i18n undefined path = []
label_i18n (obj fs) path =
    allow_only (obj fs) ("en" ∷ "es" ∷ []) path
    ++ locale_errors (obj fs) path "en"
    ++ locale_errors (obj fs) path "es"
label_i18n _ path = unless false (path ∷ " must be an object" ∷ [])

-- The elements of an array, none of any other value.
abbrev pub elements : Value → List Value
elements (arr vs) = items vs
elements _ = []

abbrev pub is_empty : List Value → Bool
is_empty [] = true
is_empty (v ∷ vs) = false

abbrev pub own_keys : Value → List String
own_keys (obj fs) = field_names fs
own_keys _ = []

abbrev pub is_true : Value → Bool
is_true (bool b) = b
is_true _ = false

abbrev keys_shown : Value → List String
keys_shown profile =
    if is_true (get profile "pickerVisible") then own_keys (get profile "gradeMap") else []

-- visibleResultKeys
unfoldable pub visible_result_keys : List Value → List String
visible_result_keys [] = []
visible_result_keys (p ∷ ps) = keys_shown p ++ visible_result_keys ps

-- A pair of a profile and a key in it; the source prints it as JSON to have a key of a set.
pub record Pair : Type 0 where
  pub profile_id : String
  pub key : String

abbrev pub same_pair : Pair → Pair → Bool
same_pair a b = str_eq a.profile_id b.profile_id && str_eq a.key b.key

abbrev pairs_with : String → List String → List Pair
pairs_with id [] = []
pairs_with id (k ∷ ks) = record { profile_id = id; key = k } ∷ pairs_with id ks

abbrev pairs_of : Option String → List String → List Pair
pairs_of none keys = []
pairs_of (some id) keys = pairs_with id keys

-- visibleResultPairs
unfoldable pub visible_result_pairs : List Value → List Pair
visible_result_pairs [] = []
visible_result_pairs (p ∷ ps) =
    pairs_of (string_of (get p "id")) (keys_shown p) ++ visible_result_pairs ps

abbrev pub text_or_empty : Value → String
text_or_empty (str s) = s
text_or_empty _ = ""

-- The texts that are not empty.
abbrev present : List String → List String
present [] = []
present (s ∷ ss) = let rest = present ss in if str_eq s "" then rest else s ∷ rest

abbrev ids_of : List Value → List String
ids_of vs = present (map (λ (v : Value). text_or_empty (get v "id")) vs)

module _ {K : Type 0} (same : K → K → Bool) where
  abbrev pub among : List K → K → Bool
  among [] k = false
  among (j ∷ js) k = same j k || among js k

  abbrev pub count_of : List K → K → ℕ
  count_of [] k = 0
  count_of (j ∷ js) k = (if same j k then 1 else 0) + count_of js k

-- uniqueDailyStatsV2ItemIds, as the test of membership
unfoldable pub unique_item_id : Value → String → String → Bool
unique_item_id stats collection id =
    count_of str_eq (ids_of (elements (get stats collection))) id == 1

abbrev entry_pairs : List String → Value → List Pair
entry_pairs profile_ids profile =
    let id = text_or_empty (get profile "id") in
    let entries = get (get profile "workflow") "alternateEntries" in
    if str_eq id ""
      || not (count_of str_eq profile_ids id == 1)
      || not (is_true (get profile "pickerVisible"))
      || not (is_true (get entries "enabled"))
    then []
    else pairs_with id (ids_of (elements (get entries "entries")))

abbrev entry_pairs_of : List String → List Value → List Pair
entry_pairs_of profile_ids [] = []
entry_pairs_of profile_ids (p ∷ ps) = entry_pairs profile_ids p ++ entry_pairs_of profile_ids ps

-- uniqueEnabledAlternateEntryPairs, as the test of membership
unfoldable pub unique_entry_pair : List Value → Pair → Bool
unique_entry_pair profiles pair =
    count_of same_pair (entry_pairs_of (ids_of profiles) profiles) pair == 1

abbrev is_color_digit : ℕ → Bool
is_color_digit c = is_hex c || (leb 65 c && leb c 70)

abbrev color_codes : List ℕ → Bool
color_codes [] = false
color_codes (c ∷ cs) = c == 35 && length cs == 6 && all is_color_digit cs

-- `typeof value === "string" && /^#[0-9A-Fa-f]{6}$/.test(value)`
unfoldable pub is_color : Value → Bool
is_color (str s) = color_codes (codes s)
is_color _ = false

abbrev pub is_array : Value → Bool
is_array (arr vs) = true
is_array _ = false

-- The keys of the item that is read, and the item to which each key was first assigned.
pub record Marks (K : Type 0) : Type 0 where
  pub own : List K
  pub assigned : List (K × ℕ)

module _ {K : Type 0} (same : K → K → Bool) where
  abbrev pub assigned_to : List (K × ℕ) → K → Option ℕ
  assigned_to [] k = none
  assigned_to ((j, n) ∷ js) k = if same j k then some n else assigned_to js k

  abbrev pub is_elsewhere : Option ℕ → ℕ → Bool
  is_elsewhere none n = false
  is_elsewhere (some m) n = not (m == n)

  abbrev pub assign : Option ℕ → List (K × ℕ) → K → ℕ → List (K × ℕ)
  assign none assigned k n = (k, n) ∷ assigned
  assign (some m) assigned k n = assigned

  -- A key of item `n` is added to the marks; an error says if the item has it, another item has
  -- it, or it is not declared.
  unfoldable pub mark :
      (declared : Bool) (path : String) (twice elsewhere undeclared : String)
      → ℕ
      → K
      → Marks K
      → List String × Marks K
  mark declared path twice elsewhere undeclared n k marks =
      let first = assigned_to marks.assigned k in
      (
        unless (not (among same marks.own k)) (path ∷ twice ∷ [])
            ++ unless (not (is_elsewhere first n)) (path ∷ elsewhere ∷ [])
            ++ unless declared (path ∷ undeclared ∷ []),
        record { own = k ∷ marks.own; assigned = assign first marks.assigned k n },
      )

-- `if (id) { if (ids.has(id)) …; ids.add(id); }`
abbrev pub mark_id : String → String → String → List String → List String × List String
mark_id id path twice ids =
    if str_eq id ""
    then ([], ids)
    else (unless (not (contains ids id)) (path ∷ twice ∷ []), id ∷ ids)

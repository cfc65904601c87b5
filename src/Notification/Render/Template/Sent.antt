-- ===== src/Notification/Render/Template/Sent.antt =====
-- The values of round data without errors.
use autoform_panel.Notification.Formatters.{shape_of}
use autoform_panel.Stats.Distinct.{unless-nil, nil-append}
use autoform_panel.Notification.Templates.{is_some}
use autoform_panel.Notification.Render.Template.Formatted.{FitsShape, FitsKind}
use autoform_panel.Notification.Time.{parse_iso_offset_date_time}
use autoform_panel.Notification.Render.Template.{round_value}
use autoform_panel.Notification.Render.RoundValue.{
  add_to_group, grouped, texts_of, counted_item, Group,
}
use autoform_panel.Notification.Round.{
  round_fields, required_keys, unknown_keys, round_field_shape, validate_submission_round_data,
  round_values, item_keys, max_round_count, missing_items_from, is_time, int_between,
  validate_missing_items, missing_item,
}
use autoform_panel.Notification.{
  prototype_names, max_round_items, unless, numeral, indexed, string_items, validate_string_array,
  bounded_string,
}
use autoform_panel.Js.Value.{
  no_property, property, field_names, Properties, non_finite, frac, negsuc, pos, null, lookup,
  undefined, int, obj, num, items, nat, bool, arr, ℤ, str, contains, Elements, Value,
}
use autoform_panel.Prelude.{
  sym, Option, none, str_eq, Bool-cases, ℕ, ◌+◌, String, ◌≡◌, refl, inl, inr, Bool, true, false,
  some, List, [], ◌∷◌, ◌++◌, eq_iff, leb, &&-eq-true, Option-cases, length,
}

bounded_string-text :
    (v : Value) (limit : ℕ) (allow_empty : Bool)
    → bounded_string v limit allow_empty ≡ true
    → (s : String) × (v ≡ str s)
unfolding bounded_string
bounded_string-text (str s) limit allow_empty h = (s, refl)
bounded_string-text undefined limit allow_empty h = cc
bounded_string-text null limit allow_empty h = cc
bounded_string-text (bool b) limit allow_empty h = cc
bounded_string-text (num n) limit allow_empty h = cc
bounded_string-text (arr vs) limit allow_empty h = cc
bounded_string-text (obj fs) limit allow_empty h = cc

int_between-nat : (low high : ℕ) (v : Value) → int_between low high v ≡ true → (n : ℕ) × (v ≡ nat n)
int_between-nat low high (num (int (pos n))) h = (n, refl)
int_between-nat low high (num (int (negsuc n))) h = cc
int_between-nat low high (num (frac s)) h = cc
int_between-nat low high (num non_finite) h = cc
int_between-nat low high undefined h = cc
int_between-nat low high null h = cc
int_between-nat low high (bool b) h = cc
int_between-nat low high (str s) h = cc
int_between-nat low high (arr vs) h = cc
int_between-nat low high (obj fs) h = cc

module _ (path : String) (limit : ℕ) where
  string_items-texts :
      (vs : List Value) (n : ℕ)
      → string_items path limit vs n ≡ []
      → (ss : List String) × (texts_of vs ≡ some ss)
  string_items-texts [] n h = ([], refl)
  string_items-texts (v ∷ vs) n h =
      let words =
        indexed path n
        ∷ " must be a non-empty string not exceeding "
        ∷ numeral limit
        ∷ " characters"
        ∷ [] in
      let (first, rest) =
        nil-append (unless (bounded_string v limit false) words)
          (string_items path limit vs (n + 1)) h in
      let (s, same) = bounded_string-text v limit false (unless-nil _ words first) in
      let (ss, others) = string_items-texts vs (n + 1) rest in (s ∷ ss, rw (same, others) refl)

  validate_string_array-texts :
      (v : Value)
      → validate_string_array path limit v ≡ []
      → (vs : Elements) × (v ≡ arr vs) × ((ss : List String) × (texts_of (items vs) ≡ some ss))
  unfolding validate_string_array
  validate_string_array-texts (arr vs) h =
      let (few, each) =
        nil-append
          (unless (leb (length (items vs)) max_round_items)
            (path ∷ " must not contain more than 100 items" ∷ []))
          (string_items path limit (items vs) 0) h in
      (vs, refl, string_items-texts (items vs) 0 each)
  validate_string_array-texts undefined h = cc
  validate_string_array-texts null h = cc
  validate_string_array-texts (bool b) h = cc
  validate_string_array-texts (num n) h = cc
  validate_string_array-texts (str s) h = cc
  validate_string_array-texts (obj fs) h = cc

missing_item-counted :
    (path : String) (v : Value)
    → missing_item path v ≡ []
    → (label : String) × ((z : ℤ) × (counted_item v ≡ some (label, z)))
unfolding missing_item
missing_item-counted path (obj fs) h =
    let wrong = path ∷ ".affectedCount must be an integer from 1 to 1000000" ∷ [] in
    let unlabelled = path ∷ ".label must be a non-empty string not exceeding 160 characters" ∷ [] in
    let labelled = unless (bounded_string (lookup "label" fs) 160 false) unlabelled in
    let counted = unless (int_between 1 max_round_count (lookup "affectedCount" fs)) wrong in
    let (before, count) = nil-append (item_keys path (field_names fs) ++ labelled) counted h in
    let (keys, text) = nil-append (item_keys path (field_names fs)) labelled before in
    let (label, same_label) =
      bounded_string-text (lookup "label" fs) 160 false (unless-nil _ unlabelled text) in
    let (n, same_count) =
      int_between-nat 1 max_round_count (lookup "affectedCount" fs) (unless-nil _ wrong count) in
    (label, (pos n, rw (same_label, same_count) refl))
missing_item-counted path undefined h = cc
missing_item-counted path null h = cc
missing_item-counted path (bool b) h = cc
missing_item-counted path (num n) h = cc
missing_item-counted path (str s) h = cc
missing_item-counted path (arr vs) h = cc

missing_items_from-grouped :
    (vs : List Value) (n : ℕ) (groups : List Group)
    → missing_items_from vs n ≡ []
    → (gs : List Group) × (grouped vs groups ≡ some gs)
missing_items_from-grouped [] n groups h = (groups, refl)
missing_items_from-grouped (v ∷ vs) n groups h =
    let (first, rest) =
      nil-append (missing_item (indexed "data.missingItems" n) v) (missing_items_from vs (n + 1))
        h in
    let (label, (z, e)) = missing_item-counted (indexed "data.missingItems" n) v first in
    rw (e, grouped) (missing_items_from-grouped vs (n + 1) (add_to_group label z groups) rest)

validate_missing_items-grouped :
    (v : Value)
    → validate_missing_items v ≡ []
    → (vs : Elements) × (v ≡ arr vs) × ((gs : List Group) × (grouped (items vs) [] ≡ some gs))
unfolding validate_missing_items
validate_missing_items-grouped (arr vs) h =
    let (few, each) =
      nil-append
        (unless (leb (length (items vs)) max_round_items)
          ("data.missingItems must not contain more than 100 items" ∷ []))
        (missing_items_from (items vs) 0) h in
    (vs, refl, missing_items_from-grouped (items vs) 0 [] each)
validate_missing_items-grouped undefined h = cc
validate_missing_items-grouped null h = cc
validate_missing_items-grouped (bool b) h = cc
validate_missing_items-grouped (num n) h = cc
validate_missing_items-grouped (str s) h = cc
validate_missing_items-grouped (obj fs) h = cc

is_time-parsed :
    (v : Value) → is_time v ≡ true → (s : String) × (parse_iso_offset_date_time v ≡ some s)
is_time-parsed v h = elim (Option-cases (parse_iso_offset_date_time v)) [
  | inl e ↦
      let (short, parsed) =
        &&-eq-true (bounded_string v 40 false) (is_some (parse_iso_offset_date_time v)) h in
      let broken = rw e at parsed in cc
  | inr e ↦ e
]

-- Values of the kinds.
strings_fit :
    (v : Value)
    → (vs : Elements) × (v ≡ arr vs) × ((ss : List String) × (texts_of (items vs) ≡ some ss))
    → FitsKind "stringArray" v
strings_fit v texts = record { strings = λ h. texts; counted = λ h. cc; time = λ h. cc }

counted_fit :
    (v : Value)
    → (vs : Elements) × (v ≡ arr vs) × ((gs : List Group) × (grouped (items vs) [] ≡ some gs))
    → FitsKind "countedItemArray" v
counted_fit v groups = record { strings = λ h. cc; counted = λ h. groups; time = λ h. cc }

time_fits :
    (v : Value)
    → (s : String) × (parse_iso_offset_date_time v ≡ some s)
    → FitsKind "isoOffsetDateTime" v
time_fits v parsed = record { strings = λ h. cc; counted = λ h. cc; time = λ h. parsed }

other_fits :
    (kind : String) (v : Value)
    → contains ("stringArray" ∷ "countedItemArray" ∷ "isoOffsetDateTime" ∷ []) kind ≡ false
    → FitsKind kind v
other_fits kind v other = record {
  strings = λ h. let same = (eq_iff kind "stringArray").0 h in let broken = rw same at other in cc;
  counted =
      λ h. let same = (eq_iff kind "countedItemArray").0 h in let broken = rw same at other in cc;
  time =
      λ h. let same = (eq_iff kind "isoOffsetDateTime").0 h in let broken = rw same at other in cc;
}

infixr 6 ◌&◌
◌&◌ {ℓ κ} : {P : Type ℓ} {Q : Type κ} → P → Q → P × Q
p & q = (p, q)

-- Every field of a list of shapes has a value of its kind.
abbrev AllFit : (String → Value) → List (String × String) → Type 0
AllFit value [] = Unit {0}
AllFit value ((k, kind) ∷ ks) = FitsKind kind (value k) × AllFit value ks

AllFit-shape :
    (value : String → Value) (ks : List (String × String)) (field kind : String)
    → AllFit value ks
    → shape_of ks field ≡ some kind
    → FitsKind kind (value field)
AllFit-shape value [] field kind fits h = elim (Bool-cases (contains prototype_names field)) [
  | inl e ↦
      let same : ◌≡◌ {A = Option String} (some "") (some kind) = rw e at h in
      let kinds : "" ≡ kind = cc in rw (← kinds) (other_fits "" (value field) refl)
  | inr e ↦ let broken : ◌≡◌ {A = Option String} none (some kind) = rw e at h in cc
]
AllFit-shape value ((k, one) ∷ ks) field kind (first, rest) h = elim (Bool-cases (str_eq k field)) [
  | inl e ↦
      let same : ◌≡◌ {A = Option String} (some one) (some kind) = rw e at h in
      let kinds : one ≡ kind = cc in rw (← (eq_iff k field).0 e, ← kinds) first
  | inr e ↦ AllFit-shape value ks field kind rest (rw e at h)
]

lookup-absent :
    (k : String) (fs : Properties) → contains (field_names fs) k ≡ false → lookup k fs ≡ undefined
lookup-absent k no_property h = refl
lookup-absent k (property j v fs) h = elim (Bool-cases (str_eq j k)) [
  | inl e ↦ let broken = rw e at h in cc
  | inr e ↦ rw e (lookup-absent k fs (rw e at h))
]

value_in-lookup :
    (fs : Properties) (k : String) → str_eq k "type" ≡ false → round_value (obj fs) k ≡ lookup k fs
value_in-lookup fs k h = elim (Bool-cases (contains (field_names fs) k)) [
  | inl e ↦ rw e refl
  | inr e ↦ rw (e, h) (sym (lookup-absent k fs e))
]

module _ (fs : Properties) where
  at_key :
      (kind k : String)
      → str_eq k "type" ≡ false
      → FitsKind kind (lookup k fs)
      → FitsKind kind (round_value (obj fs) k)
  at_key kind k other fits = rw (value_in-lookup fs k other) fits

  round_values-AllFit : round_values (obj fs) ≡ [] → AllFit (round_value (obj fs)) round_field_shape
  unfolding round_values
  round_values-AllFit h =
      let (h₉, network) = nil-append _ _ h in
      let (h₈, unconfirmed) = nil-append _ _ h₉ in
      let (h₇, errors) = nil-append _ _ h₈ in
      let (h₆, recovered) = nil-append _ _ h₇ in
      let (h₅, new) = nil-append _ _ h₆ in
      let (h₄, missing) = nil-append _ _ h₅ in
      let (h₃, count) = nil-append _ _ h₄ in
      let (h₂, time) = nil-append _ _ h₃ in
      at_key "boolean" "success" refl (other_fits _ _ refl)
      & at_key "string" "profileLabel" refl (other_fits _ _ refl)
      & at_key "string" "operatorLabel" refl (other_fits _ _ refl)
      & at_key "isoOffsetDateTime" "completedAt" refl (
          time_fits _ (
            is_time-parsed _ (
              unless-nil (is_time (lookup "completedAt" fs))
                ("data.completedAt must be an ISO-8601 date-time with an explicit offset" ∷ [])
                time)))
      & at_key "integer" "submittedCount" refl (other_fits _ _ refl)
      & at_key "countedItemArray" "missingItems" refl
          (counted_fit _ (validate_missing_items-grouped _ missing))
      & at_key "stringArray" "newMissingItems" refl
          (strings_fit _ (validate_string_array-texts "data.newMissingItems" 160 _ new))
      & at_key "stringArray" "recoveredItems" refl
          (strings_fit _ (validate_string_array-texts "data.recoveredItems" 160 _ recovered))
      & at_key "stringArray" "errors" refl
          (strings_fit _ (validate_string_array-texts "data.errors" 512 _ errors))
      & at_key "stringArray" "unconfirmedIdentifiers" refl (
          strings_fit _
            (validate_string_array-texts "data.unconfirmedIdentifiers" 128 _ unconfirmed))
      & at_key "stringArray" "networkAffectedIdentifiers" refl (
          strings_fit _
            (validate_string_array-texts "data.networkAffectedIdentifiers" 128 _ network))
      & tt

  pub validate_submission_round_data-FitsShape :
      (field : String)
      → validate_submission_round_data (obj fs) ≡ []
      → FitsShape field (round_value (obj fs) field)
  unfolding validate_submission_round_data
  validate_submission_round_data-FitsShape field h kind shape =
      let (keys, values) =
        nil-append (unknown_keys (field_names fs) ++ required_keys (obj fs) round_fields)
          (round_values (obj fs)) h in
      AllFit-shape (round_value (obj fs)) round_field_shape field kind (round_values-AllFit values)
        shape

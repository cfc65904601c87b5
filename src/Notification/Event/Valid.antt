-- ===== src/Notification/Event/Valid.antt =====
-- Events without errors.
use autoform_panel.Js.Print.{to_text}
use autoform_panel.Stats.Distinct.{unless-nil, nil-append}
use autoform_panel.Notification.Templates.{is_data_key}
use autoform_panel.Notification.{
  prototype_names, summary_schema, failure_schema, schema_keys, unless, is_event_type, event_schema,
}
use autoform_panel.Notification.Event.{
  second_version, own_names, checked_field, valid_event_value, event_data, event_type_errors,
  checked_fields, validate_notification_event, unknown_names,
}
use autoform_panel.Js.Value.{
  null, undefined, arr, num, bool, field_names, lookup, get, str, obj, is_nat, contains, has_own,
  Properties, Value,
}
use autoform_panel.Prelude.{
  str_eq, if◌then◌else◌, ◌⊎◌, String, ◌≡◌, refl, inl, inr, Bool, true, false, ◌&&◌, Option, none,
  some, List, [], ◌∷◌, Bool-cases, all,
}

-- Every field of a schema is there, with a value of its kind.
abbrev pub all_valid : Value → List (String × String) → Bool
all_valid sent [] = true
all_valid sent ((k, kind) ∷ ks) =
    has_own sent k && valid_event_value kind (get sent k) && all_valid sent ks

checked_fields-valid :
    (sent : Value) (ks : List (String × String))
    → checked_fields sent ks ≡ []
    → all_valid sent ks ≡ true
checked_fields-valid sent [] h = refl
checked_fields-valid sent ((k, kind) ∷ ks) h =
    let (first, rest) = nil-append (checked_field sent k kind) (checked_fields sent ks) h in
    let others = checked_fields-valid sent ks rest in
    elim (Bool-cases (has_own sent k)) [
      | inl e ↦
          let valid = unless-nil _ ("data." ∷ k ∷ " is invalid" ∷ []) (rw e at first) in
          rw (e, valid, others) refl
      | inr e ↦ let broken = rw e at first in cc
    ]

unknown_names-known :
    (known ks : List String)
    → unknown_names known ks ≡ []
    → all (λ (k : String). is_data_key k && contains known k) ks ≡ true
unknown_names-known known [] h = refl
unknown_names-known known (k ∷ ks) h =
    let (first, rest) =
      nil-append
        (unless (is_data_key k && contains known k) ("data." ∷ k ∷ " is not supported" ∷ []))
        (unknown_names known ks) h in
    let others = unknown_names-known known ks rest in
    let one = unless-nil _ ("data." ∷ k ∷ " is not supported" ∷ []) first in rw (one, others) refl

event_type-text :
    (v : Value) → event_type_errors v ≡ [] → (s : String) × (v ≡ str s) × (is_event_type s ≡ true)
event_type-text (str s) h =
    (s, refl, unless-nil _ ("type must be a 1-64 character identifier" ∷ []) h)
event_type-text undefined h = cc
event_type-text null h = cc
event_type-text (bool b) h = cc
event_type-text (num n) h = cc
event_type-text (arr vs) h = cc
event_type-text (obj fs) h = cc

-- The schema of a type that has one.
abbrev pub declared_schema : String → Option (List (String × String))
declared_schema type =
    if str_eq type "submission.summary"
    then some summary_schema
    else if str_eq type "runtime.failure"
    then some failure_schema
    else none

event_schema-inherited :
    (type : String) → event_schema type ≡ some [] → contains prototype_names type ≡ true
event_schema-inherited type e = elim (Bool-cases (str_eq type "submission.summary")) [
  | inl same ↦ let broken = rw same at e in cc
  | inr other ↦ elim (Bool-cases (str_eq type "runtime.failure")) [
    | inl same ↦ let broken = rw (other, same) at e in cc
    | inr rest ↦ elim (Bool-cases (contains prototype_names type)) [
      | inl h ↦ h
      | inr h ↦ let broken = rw (other, rest, h) at e in cc
    ]
  ]
]

event_schema-declared :
    (type : String) (k : String × String) (ks : List (String × String))
    → event_schema type ≡ some (k ∷ ks)
    → declared_schema type ≡ some (k ∷ ks)
event_schema-declared type k ks e = elim (Bool-cases (str_eq type "submission.summary")) [
  | inl same ↦ rw same (rw same at e)
  | inr other ↦ elim (Bool-cases (str_eq type "runtime.failure")) [
    | inl same ↦ rw (other, same) (rw (other, same) at e)
    | inr rest ↦ elim (Bool-cases (contains prototype_names type)) [
      | inl h ↦ let broken = rw (other, rest, h) at e in cc
      | inr h ↦ let broken = rw (other, rest, h) at e in cc
    ]
  ]
]

module _ (inherited : String → List String) where
  abbrev pub names_within : List String → Properties → Bool
  names_within names sent =
      all (λ (k : String). is_data_key k && contains names k) (field_names sent)

  -- An event of a type with a schema: its data has each name of the schema with a value of its kind,
  -- and no other name.
  abbrev pub IsDeclared : String → Properties → Type 0
  IsDeclared type sent =
      (schema : List (String × String)) × (declared_schema type ≡ some schema)
      × (names_within (schema_keys schema) sent ≡ true)
      × (all_valid (obj sent) schema ≡ true)

  -- An event whose type is a name of the prototype of objects: its data has only names of what
  -- stands under that name, with any values.
  abbrev pub IsInherited : String → Properties → Type 0
  IsInherited type sent =
      (contains prototype_names type ≡ true) × (names_within (inherited type) sent ≡ true)

  -- What is asked of the type and the data of an event of the second version.
  abbrev pub IsEvent : String → Value → Type 0
  IsEvent type v =
      (sent : Properties) × (v ≡ obj sent) × (IsDeclared type sent ⊎ IsInherited type sent)

  schema-IsEvent :
      (type : String) (schema : List (String × String)) (sent : Properties)
      → event_schema type ≡ some schema
      → names_within (own_names inherited type schema) sent ≡ true
      → all_valid (obj sent) schema ≡ true
      → IsEvent type (obj sent)
  schema-IsEvent type [] sent e known valid =
      (sent, refl, inr (event_schema-inherited type e, known))
  schema-IsEvent type (k ∷ ks) sent e known valid =
      (sent, refl, inl (k ∷ ks, event_schema-declared type k ks e, known, valid))

  event_data-IsEvent :
      (type : String) (o : Option (List (String × String))) (v : Value)
      → event_schema type ≡ o
      → event_data inherited type o v ≡ []
      → IsEvent type v
  event_data-IsEvent type (some schema) (obj sent) e h =
      let (known, valid) =
        nil-append (unknown_names (own_names inherited type schema) (field_names sent))
          (checked_fields (obj sent) schema) h in
      schema-IsEvent type schema sent e
        (unknown_names-known (own_names inherited type schema) (field_names sent) known)
        (checked_fields-valid (obj sent) schema valid)
  event_data-IsEvent type none (obj sent) e h = cc
  event_data-IsEvent type none undefined e h = cc
  event_data-IsEvent type none null e h = cc
  event_data-IsEvent type none (bool b) e h = cc
  event_data-IsEvent type none (num n) e h = cc
  event_data-IsEvent type none (str s) e h = cc
  event_data-IsEvent type none (arr vs) e h = cc
  event_data-IsEvent type (some schema) undefined e h = cc
  event_data-IsEvent type (some schema) null e h = cc
  event_data-IsEvent type (some schema) (bool b) e h = cc
  event_data-IsEvent type (some schema) (num n) e h = cc
  event_data-IsEvent type (some schema) (str s) e h = cc
  event_data-IsEvent type (some schema) (arr vs) e h = cc

  typed_data :
      (type : String) (v sent : Value)
      → v ≡ str type
      → event_data inherited (to_text v) (event_schema (to_text v)) sent ≡ []
      → event_data inherited type (event_schema type) sent ≡ []
  unfolding to_text
  typed_data type v sent e h = rw e at h

  -- An event that is accepted and is not of version 3 is of version 2; its type is a text and its
  -- data an object. Either the type is submission.summary or runtime.failure, and the data has
  -- exactly the names of its schema, with values of their kinds; or the type is a name of the
  -- prototype of objects, and the names of the data are names of what stands under it, with any
  -- values.
  pub validate_notification_event-IsEvent :
      (fs : Properties)
      → is_nat (lookup "version" fs) 3 ≡ false
      → validate_notification_event inherited (obj fs) ≡ []
      → (is_nat (lookup "version" fs) 2 ≡ true)
        × ((type : String) × (lookup "type" fs ≡ str type) × IsEvent type (lookup "data" fs))
  unfolding validate_notification_event
  validate_notification_event-IsEvent fs second h =
      let (keys, rest) = nil-append _ (second_version inherited fs) (rw second at h) in
      let (before, sent) = nil-append _ _ rest in
      let (version, typed) = nil-append _ _ before in
      let (type, e, is_type) = event_type-text (lookup "type" fs) typed in
      (
        unless-nil _ ("version must be 2" ∷ []) version,
        (
          type,
          e,
          event_data-IsEvent type (event_schema type) (lookup "data" fs) refl
              (typed_data type (lookup "type" fs) (lookup "data" fs) e sent),
        ),
      )

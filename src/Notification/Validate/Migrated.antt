-- ===== src/Notification/Validate/Migrated.antt =====
-- What a migrated adapter may send.
use autoform_panel.Pairing.Messages.Keys.{lookup-set_field}
use autoform_panel.Notification.Validate.{
  migrated_template, migrated_fields, clone_fields, carry_unknown, v2_keys,
  notification_event_types, migrate_notification_adapter, json_clone,
}
use autoform_panel.Js.Value.{
  str, object, set_field, no_property, nat, property, obj, is_undefined, lookup, is_nat, contains,
  Value, Properties,
}
use autoform_panel.Prelude.{
  String, ◌≡◌, refl, ◌∙◌, inl, inr, true, false, Option, [], ◌∷◌, eq_iff, str_eq, Bool-cases,
}

carry_unknown-lookup :
    (k : String) (fs to : Properties)
    → contains v2_keys k ≡ true
    → lookup k (carry_unknown fs to) ≡ lookup k to
carry_unknown-lookup k no_property to known = refl
carry_unknown-lookup k (property j v fs) to known = elim (Bool-cases (contains v2_keys j)) [
  | inl e ↦ rw e (carry_unknown-lookup k fs to known)
  | inr e ↦ elim (Bool-cases (str_eq j k)) [
    | inl f ↦ let broken : contains v2_keys j ≡ true = rw ((eq_iff j k).0 f) known in cc
    | inr f ↦
        rw e (
          carry_unknown-lookup k fs (set_field j v to) known
          ∙ lookup-set_field j k v to
          ∙ rw f refl)
  ]
]

clone_fields-lookup :
    (k : String) (w : Value) (fs : Properties)
    → lookup k fs ≡ w
    → is_undefined w ≡ false
    → lookup k (clone_fields fs) ≡ json_clone w
unfolding json_clone
clone_fields-lookup k w no_property h there = let broken = rw (← h) at there in cc
clone_fields-lookup k w (property j v fs) h there = elim (Bool-cases (is_undefined v)) [
  | inl e ↦ elim (Bool-cases (str_eq j k)) [
    | inl f ↦ let same : v ≡ w = rw f at h in let broken = rw same at e in cc
    | inr f ↦ rw e (clone_fields-lookup k w fs (rw f at h) there)
  ]
  | inr e ↦ elim (Bool-cases (str_eq j k)) [
    | inl f ↦ let same : v ≡ w = rw f at h in rw (e, f, same) refl
    | inr f ↦ rw (e, f) (clone_fields-lookup k w fs (rw f at h) there)
  ]
]

-- An adapter of the first version is migrated to one that sends submission summaries and no other
-- event, whatever event templates or other properties it has.
pub migrate_notification_adapter-events :
    (protocol_of : String → Option String) (fs : Properties)
    → is_nat (lookup "version" fs) 1 ≡ true
    → notification_event_types protocol_of (migrate_notification_adapter (obj fs))
      ≡ "submission.summary" ∷ []
unfolding migrate_notification_adapter notification_event_types json_clone
migrate_notification_adapter-events protocol_of fs first =
    let migrated = carry_unknown fs (migrated_fields fs) in
    let version =
      clone_fields-lookup "version" (nat 2) migrated
        (carry_unknown-lookup "version" fs (migrated_fields fs) refl) refl in
    let events =
      clone_fields-lookup "eventTemplates"
        (object (("submission.summary", str migrated_template) ∷ [])) migrated
        (carry_unknown-lookup "eventTemplates" fs (migrated_fields fs) refl) refl in
    rw (first, version, events) refl

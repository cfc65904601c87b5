-- ===== src/Pairing/Messages/Keys.antt =====
-- An issue message that is valid becomes a stored ticket that is valid.
use autoform_panel.Pairing.Store.{issued_record}
use autoform_panel.Js.Value.{
  get, is_str, is_plain_object, no_property, str, property, set_field, obj, lookup, field_names,
  contains, Properties, Value,
}
use autoform_panel.Pairing.Messages.{
  stored_keys, sort, issue_keys, valid_stored_ticket, valid_ticket_fields, valid_internal_issue,
  sort_onto, same_keys, insert_sorted, exact_object, Url,
}
use autoform_panel.Prelude.{
  String, ◌≡◌, refl, ap, true, false, ◌||◌, Option, List, [], ◌∷◌, ◌++◌, arith, eq_iff, str_eq,
  if◌then◌else◌,
}

pub same_keys-eq : (js ks : List String) → same_keys js ks ≡ true → js ≡ ks
unfolding same_keys
same_keys-eq [] [] h = refl
same_keys-eq [] (k ∷ ks) h = cc
same_keys-eq (j ∷ js) [] h = cc
same_keys-eq (j ∷ js) (k ∷ ks) h = ground (arith, same_keys-eq js ks, eq_iff j k)

pub same_keys_refl : (ks : List String) → same_keys ks ks ≡ true
unfolding same_keys
same_keys_refl [] = refl
same_keys_refl (k ∷ ks) = ground (arith, same_keys_refl ks, eq_iff k k)

contains-insert_sorted :
    (j k : String) (ks : List String)
    → contains (insert_sorted j ks) k ≡ (str_eq j k || contains ks k)
unfolding insert_sorted
contains-insert_sorted j k [] = refl
contains-insert_sorted j k (i ∷ ks) = ground (arith, contains-insert_sorted j k ks)

pub contains-sort_onto :
    (acc ks : List String) (k : String)
    → contains (sort_onto acc ks) k ≡ (contains ks k || contains acc k)
unfolding sort_onto
contains-sort_onto acc [] k = refl
contains-sort_onto acc (j ∷ ks) k =
    ground (arith, contains-sort_onto (insert_sorted j acc) ks k, contains-insert_sorted j k acc)

pub sort_onto-snoc :
    (acc ks : List String) (k : String)
    → sort_onto acc (ks ++ k ∷ []) ≡ insert_sorted k (sort_onto acc ks)
unfolding sort_onto
sort_onto-snoc acc [] k = refl
sort_onto-snoc acc (j ∷ ks) k = sort_onto-snoc (insert_sorted j acc) ks k

pub field_names-set_field :
    (k : String) (v : Value) (fs : Properties)
    → contains (field_names fs) k ≡ false
    → field_names (set_field k v fs) ≡ field_names fs ++ k ∷ []
field_names-set_field k v no_property h = refl
field_names-set_field k v (property j w fs) h = ground (arith, field_names-set_field k v fs)

pub lookup-set_field :
    (k j : String) (v : Value) (fs : Properties)
    → lookup j (set_field k v fs) ≡ (if str_eq k j then v else lookup j fs)
lookup-set_field k j v no_property = refl
lookup-set_field k j v (property i w fs) =
    ground (arith, lookup-set_field k j v fs, eq_iff i k, eq_iff i j, eq_iff k j)

issue_keys-no_status :
    (fs : Properties)
    → exact_object (obj fs) issue_keys ≡ true
    → contains (field_names fs) "status" ≡ false
unfolding exact_object
issue_keys-no_status fs h =
    let e = same_keys-eq (sort (field_names fs)) (sort issue_keys) h in
    ground (
      arith,
      contains-sort_onto [] (field_names fs) "status",
      contains-sort_onto [] issue_keys "status",
      ap (λ (ks : List String). contains ks "status") e,
    )

issued-exact :
    (fs : Properties)
    → exact_object (obj fs) issue_keys ≡ true
    → exact_object (obj (set_field "status" (str "issued") fs)) stored_keys ≡ true
unfolding exact_object
issued-exact fs h =
    rw
      (
        field_names-set_field "status" (str "issued") fs (issue_keys-no_status fs h),
        sort_onto-snoc [] (field_names fs) "status",
        same_keys-eq (sort (field_names fs)) (sort issue_keys) h,
      )
      refl

module _ (parse_url : String → Option Url) where
  issued-fields :
      (fs : Properties)
      → valid_ticket_fields parse_url (obj (set_field "status" (str "issued") fs))
        ≡ valid_ticket_fields parse_url (obj fs)
  unfolding valid_ticket_fields
  issued-fields fs = simp lookup-set_field

  -- `{ ...body, status: "issued" }` of a valid issue message is a valid stored ticket.
  pub issued_record-valid :
      (body : Value)
      → valid_internal_issue parse_url body ≡ true
      → valid_stored_ticket parse_url (issued_record body) ≡ true
  unfolding valid_internal_issue valid_stored_ticket
  issued_record-valid (obj fs) h = ground (
    arith,
    issued-fields fs,
    issued-exact fs,
    lookup-set_field "status" "status" (str "issued") fs,
  )
  issued_record-valid other h = absurd (unfold exact_object in cc)

-- A field of an issue message stands in the stored ticket too.
pub get-issued_record :
    (body : Value) (k : String)
    → str_eq "status" k ≡ false
    → is_plain_object body ≡ true
    → get (issued_record body) k ≡ get body k
get-issued_record (obj fs) k h p = rw (lookup-set_field, h)
get-issued_record _ k h p = cc

pub exact_object-is_plain :
    (v : Value) (keys : List String) → exact_object v keys ≡ true → is_plain_object v ≡ true
unfolding exact_object
exact_object-is_plain (obj fs) keys h = refl
exact_object-is_plain _ keys h = cc

pub is_str-eq : (v : Value) (s : String) → is_str v s ≡ true → v ≡ str s
is_str-eq (str t) s h = ap str ((eq_iff t s).0 h)
is_str-eq _ s h = cc

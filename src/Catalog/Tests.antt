-- ===== src/Catalog/Tests.antt =====
-- Concrete runs of the catalog's store, over a host that knows two versions of one catalog.
use autoform_panel.Pairing.Crypto.{split_commas}
use autoform_panel.Catalog.Seed.Safety.{seed_from_github-loses, HasLost}
use autoform_panel.Catalog.Snapshot.Race.{second_publish-loses}
use autoform_panel.Catalog.Snapshot.Publish.{publish_files-ok, publish_files-atomic, next_current}
use autoform_panel.Catalog.Seed.{build_seed, seed_from_github, create_pointer, Meanwhile}
use autoform_panel.Catalog.State.Roundtrip.{
  pointer_of, decode_state-encode_state, decode_pointer-pointer_value,
}
use autoform_panel.Js.Text.{trim_end, trim_start, trim, is_sha256}
use autoform_panel.Js.Value.{is_nat, str, is_str, nat, get, object, is_plain_object, Value}
use autoform_panel.Catalog.Snapshot.Read.{IsCurrent}
use autoform_panel.Catalog.State.{
  catalog_version_from_files, normalized_parent, normalized_files, validate_contract,
  snapshot_key_of, pointer_value, pointer_key, state_value, objects_of, encode_state, decode_state,
  decode_pointer, build_objects, Pointer, Objects, Host, Files,
}
use autoform_panel.Catalog.Bucket.{
  precondition_holds, put_object, get_object, Object, object_of, fails_before, fine, Bucket,
  unquote, Disk,
}
use autoform_panel.Catalog.Snapshot.{
  missing, put_current_pointer, updated, put_immutable_snapshot, from_r2, current, Github,
  r2_snapshot, publish_files, Current,
}
use autoform_panel.Prelude.{
  false, eq_iff, ℕ, String, ◌≡◌, refl, ◌⊎◌, true, Option, none, some, List, [], ◌∷◌, arith, str_eq,
  if◌then◌else◌,
}
use autoform_panel.Catalog.Result.{failed, Result, ok, err}

unfoldable catalog_store : Unit {0}
unfolding r2_snapshot publish_files put_immutable_snapshot put_current_pointer get_object put_object
    decode_pointer decode_state encode_state validate_contract build_objects normalized_files
    normalized_parent is_sha256 precondition_holds unquote split_commas trim trim_start trim_end
    seed_from_github build_seed create_pointer catalog_version_from_files
catalog_store = tt

abbrev digest_one : String
digest_one = "1111111111111111111111111111111111111111111111111111111111111111"

abbrev digest_two : String
digest_two = "2222222222222222222222222222222222222222222222222222222222222222"

abbrev digest_of : String → String
digest_of s = if str_eq s "state one" then digest_one else digest_two

abbrev print : Value → String
print v =
    if is_plain_object (get v "files")
    then (if is_str (get v "parentStateSha256") digest_one then "state two" else "state one")
    else if is_nat (get v "catalogVersion") 1
    then "pointer one"
    else "pointer two"

abbrev version_value : ℕ → Value
version_value n = object (("version", nat n) ∷ ("sha256", str digest_two) ∷ [])

abbrev files_one : Files
files_one = record { profiles = some "catalog one"; manifest = some "catalog one"; settings = none }

abbrev files_two : Files
files_two = record { profiles = some "catalog two"; manifest = some "catalog two"; settings = none }

abbrev pointer_one : Pointer
pointer_one = pointer_of digest_one 1

abbrev pointer_two : Pointer
pointer_two = pointer_of digest_two 2

abbrev read : String → Option Value
read s =
    if str_eq s "state one"
    then some (state_value files_one none)
    else if str_eq s "state two"
    then some (state_value files_two (some digest_one))
    else if str_eq s "pointer one"
    then some (pointer_value pointer_one)
    else if str_eq s "pointer two"
    then some (pointer_value pointer_two)
    else if str_eq s "catalog one"
    then some (version_value 1)
    else if str_eq s "catalog two"
    then some (version_value 2)
    else none

abbrev two_versions : Host
two_versions = record { stringify = print; parse = read; sha256_hex = digest_of }

abbrev md5 : String → String
md5 s = s

abbrev bucket : List Disk → Bucket
bucket faults = record {
  entries =
      record { key = pointer_key; text = "pointer one" }
      ∷ record { key = snapshot_key_of digest_one; text = "state one" }
      ∷ [];
  faults = faults;
}

abbrev version_one : Current
version_one = record {
  etag = "pointer one";
  pointer = pointer_one;
  parent = none;
  files = files_one;
}

abbrev objects_two : Objects
objects_two = objects_of two_versions "state two" 2

abbrev no_commit : Files → Github → Result Object
no_commit updates github = err (failed "no network")

bucket-IsCurrent : (faults : List Disk) → IsCurrent md5 two_versions (bucket faults) version_one
unfolding catalog_store
bucket-IsCurrent faults =
    ("pointer one", "state one", refl, (refl, refl, refl, refl, refl, refl, refl))

built_two :
    build_objects two_versions (updated files_one files_two) (some digest_one) ≡ ok objects_two
unfolding catalog_store
built_two = refl

digest_two-IsSha256 : is_sha256 digest_two ≡ true
unfolding catalog_store
digest_two-IsSha256 = refl

published :
    (publish_files md5 two_versions no_commit (bucket []) (from_r2 version_one) files_two).0
    ≡ ok (object_of md5 "pointer two")
unfolding catalog_store
published = refl

-- The disk fails at the second write.
publish_files-atomic_example :
    (r2_snapshot md5 two_versions (
        some
          (publish_files md5 two_versions no_commit
            (bucket (fine ∷ fails_before ∷ []))
            (from_r2 version_one)
            files_two).1)
      ≡ ok (current version_one))
    ⊎ (r2_snapshot md5 two_versions (
          some
            (publish_files md5 two_versions no_commit
              (bucket (fine ∷ fails_before ∷ []))
              (from_r2 version_one)
              files_two).1)
        ≡ ok (current (next_current md5 version_one files_two objects_two)))
publish_files-atomic_example =
    publish_files-atomic md5 two_versions version_one files_two objects_two built_two
      digest_two-IsSha256 refl refl refl no_commit (bucket (fine ∷ fails_before ∷ []))
      (bucket-IsCurrent (fine ∷ fails_before ∷ []))

publish_files-ok_example :
    (r2_snapshot md5 two_versions (
        some
          (publish_files md5 two_versions no_commit (bucket []) (from_r2 version_one) files_two).1)
      ≡ ok (current (next_current md5 version_one files_two objects_two)))
    × ((object_of md5 "pointer two").etag ≡ "pointer two")
publish_files-ok_example =
    publish_files-ok md5 two_versions version_one files_two objects_two built_two
      digest_two-IsSha256 refl refl refl no_commit (bucket []) (object_of md5 "pointer two")
      published

unlike : (a b : String) → str_eq a b ≡ false → ¬ (a ≡ b)
unlike a b h e = ground (arith, eq_iff a b)

unquote_one : unquote "pointer one" ≡ "pointer one"
unfolding catalog_store
unquote_one = refl

second_publish-loses_example : ¬ (
    (publish_files md5 two_versions no_commit
      (publish_files md5 two_versions no_commit (bucket []) (from_r2 version_one) files_two).1
      (from_r2 version_one)
      files_two).0
    ≡ ok (object_of md5 "pointer two"))
second_publish-loses_example =
    second_publish-loses md5 two_versions no_commit (bucket []) version_one version_one files_two
      files_two (object_of md5 "pointer two") (object_of md5 "pointer two") published refl
      (rw unquote_one (unlike "pointer one" "*" refl))
      (rw unquote_one (unlike "pointer two" "pointer one" refl))

-- While the seed waits for GitHub, another one stores the pointer.
abbrev other_seed : Meanwhile
other_seed = record {
  before_writes = λ (b : Bucket). bucket [];
  between_writes = λ (b : Bucket). b;
}

abbrev no_pointer_yet : Bucket
no_pointer_yet = record { entries = []; faults = [] }

nothing_read : r2_snapshot md5 two_versions (some no_pointer_yet) ≡ ok missing
unfolding catalog_store
nothing_read = refl

seed_from_github-loses_example : HasLost "pointer one" (
    seed_from_github md5 two_versions
      (ok (record { parent_sha = "commit"; files = files_two }))
      other_seed
      no_pointer_yet
      none)
seed_from_github-loses_example =
    seed_from_github-loses md5 two_versions
      (ok (record { parent_sha = "commit"; files = files_two })) other_seed "pointer one"
      no_pointer_yet none nothing_read refl (λ (b : Bucket) h. h)

encoded : encode_state two_versions files_two (some digest_one) ≡ ok "state two"
unfolding catalog_store
encoded = refl

decode_state-encode_state_example :
    decode_state two_versions "state two"
    ≡ ok (record { parent = some digest_one; files = files_two })
decode_state-encode_state_example =
    decode_state-encode_state two_versions files_two (some digest_one) "state two" refl encoded

decode_pointer-pointer_value_example : decode_pointer two_versions "pointer two" ≡ ok pointer_two
decode_pointer-pointer_value_example =
    decode_pointer-pointer_value two_versions digest_two 2 digest_two-IsSha256 (omega arith) refl

-- ===== src/Catalog/PublishTests.antt =====
-- A concrete publish.
use autoform_panel.Catalog.Publish.Secrets.{split_settings_lem}
use autoform_panel.Catalog.Publish.Contract.{files_of_version-contract}
use autoform_panel.Catalog.Result.{ok}
use autoform_panel.Catalog.Snapshot.{updated}
use autoform_panel.Catalog.Publish.Serve.{
  read_catalog_file-published, profiles_file, read_catalog_file,
}
use autoform_panel.Js.Value.{
  lookup, no_property, nat, bool, str, pos, Num, undefined, non_finite, int, has_own, from_pairs,
  field_names, contains, Value, Properties,
}
use autoform_panel.Catalog.State.{validate_contract, Host, Files}
use autoform_panel.Catalog.Publish.{
  files_of_version, profiles_value, manifest_value, without_slashes, Request, Previous, Arithmetic,
}
use autoform_panel.Catalog.Settings.{public_part, or_no_fields, split_settings}
use autoform_panel.Prelude.{
  String, ◌≡◌, refl, true, false, Option, none, some, [], ◌∷◌, arith, str_eq, if◌then◌else◌,
}

abbrev earlier : Previous
earlier = record {
  version = int (pos 6);
  settings = none;
  private_settings = no_property;
  min_app_version_code = nat 0;
}

abbrev given : Option Properties
given = some (
    from_pairs (
      ("theme", str "dark")
      ∷ ("notificationAdapter", str "hook")
      ∷ ("notificationsEnabled", bool true)
      ∷ []))

abbrev request : Request
request = record {
  profiles = [];
  public_url = "https://panel.example.com/";
  notes = "";
  min_app_version_code = undefined;
  settings = given;
  expected_version = some (int (pos 6));
  updated_at = "2024-01-01T00:00:00.000Z";
}

abbrev print : Value → String
print v = if has_own v "sha256" then "manifest" else "profiles"

abbrev numbers : Arithmetic
numbers = record { number_of = λ (v : Value). non_finite; plus_one = λ (n : Num). n }

abbrev same_text : String → String
same_text s = s

abbrev printed_one : Value
printed_one = profiles_value (int (pos 7)) (public_part given no_property) []

abbrev manifest_one : Value
manifest_one =
    manifest_value (int (pos 7)) "profiles" "https://panel.example.com/catalog/form-profiles.json"
      (nat 0) "2024-01-01T00:00:00.000Z" ""

abbrev read : String → Option Value
read s =
    if str_eq s "profiles"
    then some printed_one
    else if str_eq s "manifest"
    then some manifest_one
    else none

abbrev host : Host
host = record { stringify = print; parse = read; sha256_hex = same_text }

abbrev no_files : Files
no_files = record { profiles = none; manifest = none; settings = none }

files_of_version-contract_example :
    validate_contract host (
      updated no_files
        (files_of_version host numbers same_text request no_files earlier given (nat 0)).0)
    ≡ ok 7
unfolding without_slashes
files_of_version-contract_example =
    files_of_version-contract host numbers same_text request no_files earlier given (nat 0) 7 refl
      (omega arith) (omega arith) refl refl refl refl

split_settings_lem_example :
    (contains
        (field_names (split_settings (or_no_fields given) no_property).0)
        "notificationAdapter"
      ≡ false)
    × (contains
          (field_names (split_settings (or_no_fields given) no_property).0)
          "notificationsEnabled"
        ≡ false)
    × ((k : String)
        → str_eq "notificationAdapter" k ≡ false
        → str_eq "notificationsEnabled" k ≡ false
        → lookup k (split_settings (or_no_fields given) no_property).0
          ≡ lookup k (or_no_fields given))
    × (contains (field_names (or_no_fields given)) "notificationAdapter" ≡ true
        → lookup "notificationAdapter" (split_settings (or_no_fields given) no_property).1
          ≡ lookup "notificationAdapter" (or_no_fields given))
    × (contains (field_names (or_no_fields given)) "notificationsEnabled" ≡ true
        → lookup "notificationsEnabled" (split_settings (or_no_fields given) no_property).1
          ≡ lookup "notificationsEnabled" (or_no_fields given))
split_settings_lem_example = split_settings_lem (or_no_fields given) no_property

read_catalog_file-published_example :
    read_catalog_file host numbers same_text
      (updated no_files
        (files_of_version host numbers same_text request no_files earlier given (nat 0)).0)
      profiles_file
    ≡ ok (some "profiles")
read_catalog_file-published_example =
    read_catalog_file-published host numbers same_text request no_files earlier given (nat 0) refl
      refl

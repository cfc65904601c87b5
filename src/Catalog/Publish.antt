-- ===== src/Catalog/Publish.antt =====
-- api/catalog-publish.js: a new version of the catalog, and what is read back of the current one.
pub mod Contract
pub mod Secrets
pub mod Serve
use autoform_panel.Catalog.Settings.{
  or_no_fields, has_fields, field_of, public_part, merge, has_field, private_part, object_fields,
  merged_settings,
}
use autoform_panel.Stats.Alternate.{validate_alternate_entries}
use autoform_panel.Stats.Qualified.{validate_daily_stats_v2}
use autoform_panel.Stats.Legacy.{validate_daily_stats}
use autoform_panel.Catalog.Bucket.{Bucket, Object}
use autoform_panel.Catalog.Snapshot.{publish_files, files_of, Snapshot, Github}
use autoform_panel.Js.Value.{
  get, str, set_field, same_num, max_safe_integer, non_finite, from_list, pos, lookup, frac,
  field_names, arr, undefined, property, object, obj, num, no_property, nat, int, contains, bool,
  Value, Properties, Num,
}
use autoform_panel.Catalog.State.{nonempty, Files, Host}
use autoform_panel.Prelude.{
  ◌+◌, not, ◌||◌, ◌++◌, ltb, code, String, Bool, true, false, ◌&&◌, Option, none, some, List, [],
  ◌∷◌, str_eq, ◌==◌, if◌then◌else◌,
}
use autoform_panel.Catalog.Result.{require, failed, conflict, Result, ok, err, ◌>>=◌, ◌>>◌}
use mathlib.Core.Option
use Prim.Native.String

-- Numbers of the host: `Number(value)`, and `value + 1` where that is no safe integer.
pub record Arithmetic : Type 0 where
  pub number_of : Value → Num
  pub plus_one : Num → Num

-- The arguments of `publishCatalog`; an option that is absent is undefined or none. `updated_at`
-- is the time of the call as a text.
pub record Request : Type 0 where
  pub profiles : List Value
  pub public_url : String
  pub notes : String
  pub min_app_version_code : Value
  pub settings : Option Properties
  pub expected_version : Option Num
  pub updated_at : String

pub record Published : Type 0 where
  pub version : Num
  pub sha256 : String
  pub profiles_url : String

-- What `publishCatalog` finds in the current files.
pub record Previous : Type 0 where
  pub version : Num
  pub settings : Option Properties
  pub private_settings : Properties
  pub min_app_version_code : Value

-- `Number(value) || 0`
abbrev pub or_zero_num : Num → Num
or_zero_num (int z) = int z
or_zero_num (frac s) = frac s
or_zero_num non_finite = int (pos 0)

-- The value of a text in a file, undefined if it is absent or no JSON.
abbrev parsed : Host → Option String → Value
parsed host none = undefined
parsed host (some s) = elim (host.parse s) [ none ↦ undefined | some v ↦ v ]

-- `Number.isInteger(value) && value >= 0`
abbrev pub is_count : Value → Bool
is_count (num (int (pos n))) = true
is_count _ = false

-- The text without the slashes at its end.
unfoldable pub without_slashes : String → String
without_slashes String.[] = ""
without_slashes (String.◌∷◌ c s) =
    let rest = without_slashes s in if code c == 47 && str_eq rest "" then "" else String.◌∷◌ c rest

abbrev is_bool : Value → Bool
is_bool (bool b) = true
is_bool _ = false

abbrev pub profiles_value : Num → Option Properties → List Value → Value
profiles_value version none profiles = object (
    ("schemaVersion", nat 2)
    ∷ ("version", num version)
    ∷ ("profiles", arr (from_list profiles))
    ∷ [])
profiles_value version (some settings) profiles = object (
    ("schemaVersion", nat 2)
    ∷ ("version", num version)
    ∷ ("settings", obj settings)
    ∷ ("profiles", arr (from_list profiles))
    ∷ [])

abbrev pub manifest_value : Num → String → String → Value → String → String → Value
manifest_value version sha256 url min_version updated_at notes = object (
    ("schemaVersion", nat 2)
    ∷ ("version", num version)
    ∷ ("sha256", str sha256)
    ∷ ("profilesUrl", str url)
    ∷ ("minAppVersionCode", min_version)
    ∷ ("updatedAt", str updated_at)
    ∷ ("notes", str notes)
    ∷ [])

abbrev settings_value : Properties → Value
settings_value secret = object (("schemaVersion", nat 1) ∷ ("settings", obj secret) ∷ [])

abbrev pub profiles_url_of : String → String
profiles_url_of public_url = String.◌++◌ (without_slashes public_url) "/catalog/form-profiles.json"

-- The resolved minAppVersionCode: the option, the merged settings, or the last manifest.
abbrev resolved_min_version : Value → Value → Value → Value
resolved_min_version undefined undefined previous = previous
resolved_min_version undefined setting previous = setting
resolved_min_version given setting previous = given

abbrev or_none_new : Bool → String → Option String
or_none_new true text = some text
or_none_new false text = none

abbrev has_text : Option String → Bool
has_text none = false
has_text (some s) = true

abbrev as_expected : Option Num → Num → Bool
as_expected none version = true
as_expected (some n) version = same_num n version

-- `if (errors.length) throw new Error(…)`
abbrev pub no_errors : List String → String → Result (Unit {0})
no_errors [] message = ok tt
no_errors (e ∷ es) message = err (failed message)

module _ (host : Host) (arithmetic : Arithmetic) (quote : String → String) where
  abbrev pub number : Value → Num
  number undefined = non_finite
  number (num n) = n
  number v = arithmetic.number_of v

  -- `prevVersion + 1`
  abbrev pub next_version : Num → Num
  next_version (int (pos n)) =
      if ltb n max_safe_integer then int (pos (n + 1)) else arithmetic.plus_one (int (pos n))
  next_version n = arithmetic.plus_one n

  abbrev pub count_or_zero : Value → Value
  count_or_zero v = if is_count v then v else nat 0

  -- What the current files say; a file that is absent, empty or no JSON says nothing.
  unfoldable pub previous_of : Files → Previous
  previous_of files =
      let before = parsed host (nonempty files.profiles) in
      record {
        version = or_zero_num (number (get before "version"));
        settings = object_fields (get before "settings");
        private_settings =
            merge no_property (
              or_no_fields
                (object_fields (get (parsed host (nonempty files.settings)) "settings")));
        min_app_version_code =
            count_or_zero (get (parsed host (nonempty files.manifest)) "minAppVersionCode");
      }

  -- The texts of the files of a version.
  abbrev pub files_of_version :
      Request → Files → Previous → Option Properties → Value → Files × Published
  files_of_version request old previous merged min_version =
      let version = next_version previous.version in
      let secret = private_part merged previous.private_settings in
      let profiles_json =
        host.stringify (
          profiles_value version (public_part merged previous.private_settings) request.profiles) in
      let digest = host.sha256_hex profiles_json in
      let url = profiles_url_of request.public_url in
      (
        record {
          profiles = some profiles_json;
          manifest = some (
              host.stringify
                (manifest_value version digest url min_version request.updated_at request.notes));
          settings =
              or_none_new (has_fields secret || has_text (nonempty old.settings))
                (host.stringify (settings_value secret));
        },
        record { version = version; sha256 = digest; profiles_url = url },
      )

  -- The part of `publishCatalog` between its snapshot and its write.
  unfoldable pub publish_updates : Request → Files → Result (Files × Published)
  publish_updates request old = do
    let previous = previous_of old
    if as_expected request.expected_version previous.version then ok tt else err conflict
    let merged = merged_settings previous.settings request.settings
    require
        (not (has_field merged "notificationsEnabled")
          || is_bool (field_of merged "notificationsEnabled"))
        "notificationsEnabled must be a boolean"
    no_errors (validate_daily_stats (field_of merged "dailyStats") request.profiles)
        "dailyStats validation failed"
    no_errors (validate_daily_stats_v2 (field_of merged "dailyStatsV2") request.profiles)
        "dailyStatsV2 validation failed"
    no_errors
        (validate_alternate_entries quote (field_of merged "dailyStatsAlternateEntries")
          (field_of merged "dailyStatsV2") request.profiles)
        "dailyStatsAlternateEntries validation failed"
    let min_version =
        resolved_min_version request.min_app_version_code (field_of merged "minAppVersionCode")
          previous.min_app_version_code
    require (is_count min_version) "minAppVersionCode must be a non-negative integer"
    ok (files_of_version request old previous merged min_version)

  abbrev published : Published → Result Object → Result Published
  published p r = r >> ok p

  abbrev publish_over :
      (String → String)
      → (Files → Github → Result Object)
      → Bucket
      → Snapshot
      → Result (Files × Published)
      → Result Published × Bucket
  publish_over md5 commit b snapshot (err e) = (err e, b)
  publish_over md5 commit b snapshot (ok (updates, p)) =
      let (r, after) = publish_files md5 host commit b snapshot updates in (published p r, after)

  -- publishCatalog, over the snapshot that it has read
  unfoldable pub publish_catalog :
      (String → String)
      → (Files → Github → Result Object)
      → Bucket
      → Snapshot
      → Request
      → Result Published × Bucket
  publish_catalog md5 commit b snapshot request =
      publish_over md5 commit b snapshot (publish_updates request (files_of snapshot))

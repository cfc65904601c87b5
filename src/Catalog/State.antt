-- ===== src/Catalog/State.antt =====
-- api/catalog-r2-state.js: the content-addressed state of the catalog and the pointer to it, and
-- the names of api/catalog-constants.js.
pub mod Roundtrip
use autoform_panel.Js.Text.{is_sha256}
use autoform_panel.Js.Value.{
  safe_nat, is_str, is_plain_object, is_nat, undefined, pos, nat, int, str, object, num, null, get,
  Value,
}
use autoform_panel.Catalog.Result.{require, need, err, failed, Result, Fault}
use autoform_panel.Prelude.{
  ℕ, String, not, ◌&&◌, Option, none, some, [], ◌∷◌, ◌++◌, str_eq, leb, if◌then◌else◌,
}
use Prim.Native.String
use autoform_panel.Catalog.Result.{ok, err, failed, ◌>>=◌, ◌>>◌}

abbrev pub profiles_path : String
profiles_path = "form-profiles.json"

abbrev pub manifest_path : String
manifest_path = "manifest.json"

abbrev pub panel_settings_path : String
panel_settings_path = "panel-settings.json"

abbrev pub max_app_catalog_version : ℕ
max_app_catalog_version = 2147483647

abbrev pub pointer_key : String
pointer_key = "catalog-current-v1.json"

abbrev pub snapshot_prefix : String
snapshot_prefix = "catalog-snapshots-v1/"

-- The texts of CATALOG_PATHS.
pub record Files : Type 0 where
  pub profiles : Option String
  pub manifest : Option String
  pub settings : Option String

pub record Pointer : Type 0 where
  pub snapshot_key : String
  pub state_sha256 : String
  pub catalog_version : ℕ

pub record State : Type 0 where
  pub parent : Option String
  pub files : Files

-- What `buildR2CatalogObjects` returns.
pub record Objects : Type 0 where
  pub state_text : String
  pub state_sha256 : String
  pub snapshot_key : String
  pub catalog_version : ℕ
  pub pointer_text : String

-- JSON and SHA-256 of the host. `stringify` is `JSON.stringify(value, null, 2) + "\n"`; a `parse`
-- that throws is none.
pub record Host : Type 0 where
  pub stringify : Value → String
  pub parse : String → Option Value
  pub sha256_hex : String → String

-- `files?.[path] ?? null`, which must be a text or null.
abbrev text_or_null : Value → String → Result (Option String)
text_or_null undefined path = ok none
text_or_null null path = ok none
text_or_null (str s) path = ok (some s)
text_or_null _ path =
    err (failed (String.◌++◌ "R2 catalog state " (String.◌++◌ path " must be a string or null")))

-- normalizedCatalogFiles
unfoldable pub normalized_files : Value → Result Files
normalized_files v = do
  profiles ← text_or_null (get v profiles_path) profiles_path
  manifest ← text_or_null (get v manifest_path) manifest_path
  settings ← text_or_null (get v panel_settings_path) panel_settings_path
  ok (record { profiles = profiles; manifest = manifest; settings = settings })

abbrev bad_parent : Fault
bad_parent = failed "R2 catalog parentStateSha256 must be null or a lowercase SHA-256"

-- normalizedParentStateSha256
unfoldable pub normalized_parent : Value → Result (Option String)
normalized_parent undefined = ok none
normalized_parent null = ok none
normalized_parent (str s) = if is_sha256 s then ok (some s) else err bad_parent
normalized_parent _ = err bad_parent

abbrev pub value_of : Option String → Value
value_of none = null
value_of (some s) = str s

abbrev pub files_value : Files → Value
files_value files = object (
    (profiles_path, value_of files.profiles)
    ∷ (manifest_path, value_of files.manifest)
    ∷ (panel_settings_path, value_of files.settings)
    ∷ [])

-- The object that `encodeR2CatalogState` prints.
abbrev pub state_value : Files → Option String → Value
state_value files parent = object (
    ("schemaVersion", nat 1)
    ∷ ("parentStateSha256", value_of parent)
    ∷ ("files", files_value files)
    ∷ [])

abbrev pub pointer_value : Pointer → Value
pointer_value p = object (
    ("schemaVersion", nat 1)
    ∷ ("snapshotKey", str p.snapshot_key)
    ∷ ("stateSha256", str p.state_sha256)
    ∷ ("catalogVersion", nat p.catalog_version)
    ∷ [])

abbrev pub snapshot_key_of : String → String
snapshot_key_of digest = String.◌++◌ snapshot_prefix (String.◌++◌ digest ".json")

-- The integers from `lo` to the largest version of the app.
abbrev pub version_from : ℕ → Value → Option ℕ
version_from lo (num (int (pos n))) =
    if leb lo n && leb n max_app_catalog_version then some n else none
version_from lo _ = none

abbrev pub or_zero : Option ℕ → ℕ
or_zero none = 0
or_zero (some n) = n

-- A text that is absent or empty does not count.
abbrev pub nonempty : Option String → Option String
nonempty none = none
nonempty (some s) = if str_eq s "" then none else some s

module _ (host : Host) where
  -- encodeR2CatalogState
  unfoldable pub encode_state : Files → Option String → Result String
  encode_state files parent = do
    digest ← normalized_parent (value_of parent)
    ok (host.stringify (state_value files digest))

  -- decodeR2CatalogState
  unfoldable pub decode_state : String → Result State
  decode_state text = do
    state ← need (host.parse text) "R2 catalog state is not valid JSON"
    require (is_nat (get state "schemaVersion") 1 && is_plain_object (get state "files"))
        "R2 catalog state must use schemaVersion 1 and contain files"
    parent ← normalized_parent (get state "parentStateSha256")
    files ← normalized_files (get state "files")
    ok (record { parent = parent; files = files })

  abbrev version_of_text : Option Value → ℕ
  version_of_text none = 0
  version_of_text (some v) = or_zero (version_from 0 (get v "version"))

  -- catalogVersionFromFiles
  unfoldable pub catalog_version_from_files : Files → ℕ
  catalog_version_from_files files = elim (nonempty files.profiles) [
    | none ↦ 0
    | some text ↦ version_of_text (host.parse text)
  ]

  -- validateR2CatalogFileContract, which returns the version.
  unfoldable pub validate_contract : Files → Result ℕ
  validate_contract files = do
    profiles_text ←
        need (nonempty files.profiles) "R2 catalog snapshot must contain profiles and manifest text"
    manifest_text ←
        need (nonempty files.manifest) "R2 catalog snapshot must contain profiles and manifest text"
    profiles ← need (host.parse profiles_text) "R2 catalog profiles and manifest must be valid JSON"
    manifest ← need (host.parse manifest_text) "R2 catalog profiles and manifest must be valid JSON"
    version ←
        need (version_from 1 (get profiles "version"))
          "R2 catalog version must be a positive App-compatible integer"
    require (is_nat (get manifest "version") version)
        "R2 manifest version does not match form-profiles version"
    require (is_str (get manifest "sha256") (host.sha256_hex profiles_text))
        "R2 manifest SHA-256 does not match the exact form-profiles bytes"
    ok version

  abbrev pub objects_of : String → ℕ → Objects
  objects_of state_text version =
      let digest = host.sha256_hex state_text in
      record {
        state_text = state_text;
        state_sha256 = digest;
        snapshot_key = snapshot_key_of digest;
        catalog_version = version;
        pointer_text = host.stringify (
            pointer_value (record {
              snapshot_key = snapshot_key_of digest;
              state_sha256 = digest;
              catalog_version = version;
            }));
      }

  -- buildR2CatalogObjects
  unfoldable pub build_objects : Files → Option String → Result Objects
  build_objects files parent = do
    version ← validate_contract files
    state_text ← encode_state files parent
    ok (objects_of state_text version)

  abbrev text_of_value : Value → String
  text_of_value (str s) = s
  text_of_value _ = ""

  abbrev bad_pointer : String
  bad_pointer =
      "R2 catalog current pointer must use schemaVersion 1 and reference one content-addressed snapshot"

  -- decodeR2CatalogPointer
  unfoldable pub decode_pointer : String → Result Pointer
  decode_pointer text = do
    pointer ← need (host.parse text) "R2 catalog current pointer is not valid JSON"
    let digest = text_of_value (get pointer "stateSha256")
    require
        (is_nat (get pointer "schemaVersion") 1
          && is_sha256 digest
          && is_str (get pointer "snapshotKey") (snapshot_key_of digest))
        bad_pointer
    version ← need (safe_nat (get pointer "catalogVersion")) bad_pointer
    ok (record {
      snapshot_key = snapshot_key_of digest;
      state_sha256 = digest;
      catalog_version = version;
    })

-- ===== src/Catalog/Publish/Serve.antt =====
-- api/catalog-publish.js: readProfiles and readCatalogFile, over the files of a snapshot.
use autoform_panel.Stats.{elements}
use autoform_panel.Catalog.Publish.Secrets.{split_settings_lem}
use autoform_panel.Catalog.Snapshot.{updated}
use autoform_panel.Catalog.Publish.Contract.{printed_profiles}
use autoform_panel.Catalog.Publish.{
  number, next_version, or_zero_num, files_of_version, set_field, no_property, profiles_value, pos,
  is_count, lookup, int, get, Previous, undefined, Request, Arithmetic,
}
use autoform_panel.Catalog.Settings.{public_part, object_fields, or_no_fields, merge}
use autoform_panel.Js.Value.{is_undefined, has_own, null, Properties, Value, Num}
use autoform_panel.Catalog.State.{nonempty, Files, Host}
use autoform_panel.Prelude.{
  String, ◌≡◌, refl, Bool, true, false, not, ◌&&◌, Option, none, some, List, [], str_eq,
  if◌then◌else◌,
}
use autoform_panel.Catalog.Result.{require, need, Result, ok, ◌>>=◌, ◌>>◌}

-- What `readProfiles` returns.
pub record Effective : Type 0 where
  pub version : Num
  pub profiles : List Value
  pub settings : Properties
  pub catalog_sha256 : String

pub data Which : Type 0 where
  manifest_file profiles_file : Which

abbrev is_null : Value → Bool
is_null null = true
is_null _ = false

module _ (host : Host) (arithmetic : Arithmetic) (quote : String → String) where
  -- `JSON.parse(text)` of a value whose properties are read next
  abbrev pub read_json : String → Result Value
  read_json text = do
    v ← need (host.parse text) "not valid JSON"
    require (not (is_null v)) "property of null"
    ok v

  abbrev with_panel : Properties → Option String → Result Properties
  with_panel settings none = ok settings
  with_panel settings (some text) = do
    panel ← read_json text
    ok (merge settings (or_no_fields (object_fields (get panel "settings"))))

  abbrev with_minimum : Properties → Value → Properties
  with_minimum settings minimum =
      if is_undefined (lookup "minAppVersionCode" settings) && is_count minimum
      then set_field "minAppVersionCode" minimum settings
      else settings

  abbrev manifest_minimum : Option String → Value
  manifest_minimum none = undefined
  manifest_minimum (some text) = elim (host.parse text) [
    | none ↦ undefined
    | some v ↦ get v "minAppVersionCode"
  ]

  abbrev effective : Files → Option String → Result Effective
  effective files none =
      ok (record {
        version = int (pos 0);
        profiles = [];
        settings = no_property;
        catalog_sha256 = "";
      })
  effective files (some text) = do
    json ← read_json text
    let own = merge no_property (or_no_fields (object_fields (get json "settings")))
    settings ← with_panel own (nonempty files.settings)
    ok (record {
      version = or_zero_num (number host arithmetic quote (get json "version"));
      profiles = elements (get json "profiles");
      settings = with_minimum settings (manifest_minimum (nonempty files.manifest));
      catalog_sha256 = host.sha256_hex text;
    })

  -- readProfiles
  unfoldable pub read_profiles : Files → Result Effective
  read_profiles files = effective files (nonempty files.profiles)

  -- A catalog that holds the adapter of the Worker is not served.
  abbrev serve_profiles : Option String → Option String → Result (Option String)
  serve_profiles text none = ok text
  serve_profiles text (some body) = do
    catalog ← need (host.parse body) "not valid JSON"
    require (not (has_own (get catalog "settings") "notificationAdapter"))
        "catalog contains Worker-only notificationAdapter"
    ok text

  -- readCatalogFile
  unfoldable pub read_catalog_file : Files → Which → Result (Option String)
  read_catalog_file files manifest_file = ok files.manifest
  read_catalog_file files profiles_file = serve_profiles files.profiles (nonempty files.profiles)

  has_own-public :
      (version : Num) (merged : Option Properties) (secret : Properties) (profiles : List Value)
      → has_own
          (get (profiles_value version (public_part merged secret) profiles) "settings")
          "notificationAdapter"
        ≡ false
  has_own-public version none secret profiles = refl
  has_own-public version (some given) secret profiles = (split_settings_lem given secret).0

  -- The profiles of a published version are served to the app, whatever settings the publish was
  -- given, where JSON reads back the object that it printed and its text is not empty.
  pub read_catalog_file-published :
      (request : Request) (old : Files) (previous : Previous) (merged : Option Properties)
      (min_version : Value)
      → host.parse (host.stringify (printed_profiles host arithmetic quote request previous merged))
        ≡ some (printed_profiles host arithmetic quote request previous merged)
      → str_eq (host.stringify (printed_profiles host arithmetic quote request previous merged)) ""
        ≡ false
      → read_catalog_file
          (updated old
            (files_of_version host arithmetic quote request old previous merged min_version).0)
          profiles_file
        ≡ ok
            (some (host.stringify (printed_profiles host arithmetic quote request previous merged)))
  unfolding read_catalog_file
  read_catalog_file-published request old previous merged min_version p s =
      rw
        (
          s,
          p,
          has_own-public (next_version host arithmetic quote previous.version) merged
              previous.private_settings request.profiles,
        )
        refl

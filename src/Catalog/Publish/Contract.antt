-- ===== src/Catalog/Publish/Contract.antt =====
-- The contract of a snapshot, for the files that a publish writes.
use text.Mathlib.TextPositions.{eq_refl}
use autoform_panel.Catalog.Snapshot.{updated}
use autoform_panel.Catalog.Publish.{
  Num, files_of_version, pos, profiles_url_of, int, profiles_value, num, next_version,
  manifest_value, get, Value, Properties, Previous, Request, Arithmetic,
}
use autoform_panel.Catalog.Settings.{public_part}
use autoform_panel.Catalog.State.{max_app_catalog_version, Files, validate_contract, Host}
use autoform_panel.Prelude.{
  List, arith, le→leb, ℕ, ◌≤◌, String, ◌≡◌, refl, false, Option, none, some, str_eq,
}
use autoform_panel.Catalog.Result.{ok}

get-profiles_value :
    (version : Num) (settings : Option Properties) (profiles : List Value)
    → get (profiles_value version settings profiles) "version" ≡ num version
get-profiles_value version none profiles = refl
get-profiles_value version (some fs) profiles = refl

module _ (host : Host) (arithmetic : Arithmetic) (quote : String → String) where
  -- The objects that are printed for a version.
  abbrev pub printed_profiles : Request → Previous → Option Properties → Value
  printed_profiles request previous merged =
      profiles_value (next_version host arithmetic quote previous.version)
        (public_part merged previous.private_settings) request.profiles

  abbrev pub printed_manifest : Request → Previous → Option Properties → Value → Value
  printed_manifest request previous merged min_version =
      manifest_value (next_version host arithmetic quote previous.version)
        (host.sha256_hex (host.stringify (printed_profiles request previous merged)))
        (profiles_url_of request.public_url) min_version request.updated_at request.notes

  -- The files that a publish writes keep the contract of a snapshot with the next version, which is
  -- from 1 to the largest that the app reads, where JSON reads back the two objects that it printed
  -- and their texts are not empty.
  pub files_of_version-contract :
      (request : Request) (old : Files) (previous : Previous) (merged : Option Properties)
      (min_version : Value) (n : ℕ)
      → next_version host arithmetic quote previous.version ≡ int (pos n)
      → 1 ≤ n
      → n ≤ max_app_catalog_version
      → host.parse (host.stringify (printed_profiles request previous merged))
        ≡ some (printed_profiles request previous merged)
      → host.parse (host.stringify (printed_manifest request previous merged min_version))
        ≡ some (printed_manifest request previous merged min_version)
      → str_eq (host.stringify (printed_profiles request previous merged)) "" ≡ false
      → str_eq (host.stringify (printed_manifest request previous merged min_version)) "" ≡ false
      → validate_contract host (
          updated old
            (files_of_version host arithmetic quote request old previous merged min_version).0)
        ≡ ok n
  unfolding validate_contract
  files_of_version-contract request old previous merged min_version n v lo hi p m s t =
      let public = public_part merged previous.private_settings in
      let digest =
        host.sha256_hex (host.stringify (profiles_value (int (pos n)) public request.profiles)) in
      rw
        (
          s,
          t,
          p,
          m,
          get-profiles_value (next_version host arithmetic quote previous.version) public
              request.profiles,
          v,
          le→leb 1 n lo,
          le→leb n max_app_catalog_version hi,
          eq_refl digest,
        )
        (ground arith)

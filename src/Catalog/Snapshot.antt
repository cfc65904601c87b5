-- ===== src/Catalog/Snapshot.antt =====
-- api/catalog-snapshot.js: reading the current snapshot, and writing a new one.
pub mod Read
pub mod Write
pub mod Publish
pub mod Race
use autoform_panel.Catalog.Bucket.{
  broke, refused, written, put_object, headers, get_object, conditional, Written, OnlyIf, Object,
  Bucket,
}
use autoform_panel.Catalog.State.{
  validate_contract, decode_state, pointer_key, decode_pointer, build_objects, Objects, Pointer,
  Host, Files,
}
use autoform_panel.Prelude.{String, not, Option, none, some, [], ◌∷◌, str_eq, ◌==◌, if◌then◌else◌}
use autoform_panel.Catalog.Result.{need, require, Result, ok, err, failed, conflict, ◌>>=◌, ◌>>◌}

-- A bound bucket holds no pointer, or a current snapshot; the panel may have no bucket at all.
pub record Current : Type 0 where
  pub etag : String
  pub pointer : Pointer
  pub parent : Option String
  pub files : Files

-- What `githubCatalogSnapshot` reads: the commit and its files.
pub record Github : Type 0 where
  pub parent_sha : String
  pub files : Files

pub data Stored : Type 0 where
  unbound : Stored
  missing : Stored
  current : Current → Stored

pub data Snapshot : Type 0 where
  from_r2 : Current → Snapshot
  from_github : Github → Snapshot
  from_fallback : Github → Snapshot

abbrev pub files_of : Snapshot → Files
files_of (from_r2 c) = c.files
files_of (from_github g) = g.files
files_of (from_fallback g) = g.files

abbrev pub later : Option String → Option String → Option String
later none old = old
later (some new) old = some new

-- `{ ...files, ...updates }`, where an update that is none is no key of `updates`.
abbrev pub updated : Files → Files → Files
updated files updates = record {
  profiles = later updates.profiles files.profiles;
  manifest = later updates.manifest files.manifest;
  settings = later updates.settings files.settings;
}

abbrev pub if_absent : OnlyIf
if_absent = headers none (some "*")

module _ (md5 : String → String) where
  -- An error of the disk has no HTTP status, so that it is thrown on.
  abbrev pub pointer_result : Written → Result Object
  pointer_result (written object) =
      if str_eq object.etag ""
      then err (failed "R2 catalog current-pointer write did not return an ETag")
      else ok object
  pointer_result refused = err conflict
  pointer_result broke = err (failed "write failed")

  -- putR2CurrentPointer
  unfoldable pub put_current_pointer : Bucket → String → OnlyIf → Result Object × Bucket
  put_current_pointer b text only_if =
      let (result, b₁) = put_object md5 b pointer_key text only_if in (pointer_result result, b₁)

  abbrev same_bytes : String → Option Object → Result Object
  same_bytes text none = err (failed "R2 immutable catalog snapshot collision")
  same_bytes text (some found) =
      if str_eq found.text text
      then ok found
      else err (failed "R2 immutable catalog snapshot collision")

  abbrev pub snapshot_result : Bucket → String → String → Written → Result Object
  snapshot_result b key text (written object) = ok object
  snapshot_result b key text refused = same_bytes text (get_object md5 b key)
  snapshot_result b key text broke = err (failed "write failed")

  -- putImmutableR2Snapshot
  unfoldable pub put_immutable_snapshot : Bucket → String → String → Result Object × Bucket
  put_immutable_snapshot b key text =
      let (result, b₁) = put_object md5 b key text if_absent in
      (snapshot_result b₁ key text result, b₁)

  -- The two writes of a publish; the second is skipped when the first throws.
  abbrev pub then_pointer : OnlyIf → String → Result Object × Bucket → Result Object × Bucket
  then_pointer only_if text (ok object, b) = put_current_pointer b text only_if
  then_pointer only_if text (err e, b) = (err e, b)

  abbrev pub write_objects : Bucket → OnlyIf → Result Objects → Result Object × Bucket
  write_objects b only_if (err e) = (err e, b)
  write_objects b only_if (ok objects) =
      then_pointer only_if objects.pointer_text
        (put_immutable_snapshot b objects.snapshot_key objects.state_text)

module _ (md5 : String → String) (host : Host) where
  -- The snapshot that the pointer names.
  abbrev pub named_snapshot : Bucket → Object → Result Stored
  named_snapshot b at = do
    require (not (str_eq at.etag "")) "R2 catalog current pointer did not include an ETag"
    pointer ← decode_pointer host at.text
    found ← need (get_object md5 b pointer.snapshot_key) "R2 catalog snapshot is missing"
    require (str_eq (host.sha256_hex found.text) pointer.state_sha256)
        "R2 catalog snapshot failed its SHA-256 check"
    state ← decode_state host found.text
    version ← validate_contract host state.files
    require (version == pointer.catalog_version)
        "R2 catalog current pointer version does not match its snapshot"
    ok (
        current (record {
          etag = at.etag;
          pointer = pointer;
          parent = state.parent;
          files = state.files;
        }))

  -- r2CatalogSnapshot
  unfoldable pub r2_snapshot : Option Bucket → Result Stored
  r2_snapshot none = ok unbound
  r2_snapshot (some b) = elim (get_object md5 b pointer_key) [
    | none ↦ ok missing
    | some at ↦ named_snapshot b at
  ]

  abbrev or_github : Stored → Result Github → Result Snapshot
  or_github (current c) github = ok (from_r2 c)
  or_github missing github = github >>= λ g. ok (from_fallback g)
  or_github unbound github = github >>= λ g. ok (from_github g)

  -- catalogSnapshot
  unfoldable pub catalog_snapshot : Option Bucket → Result Github → Result Snapshot
  catalog_snapshot b github = r2_snapshot b >>= λ stored. or_github stored github

  -- publishCatalogFiles; `commit` is commitCatalogFiles on the branch of GitHub.
  unfoldable pub publish_files :
      (commit : Files → Github → Result Object) → Bucket → Snapshot → Files → Result Object × Bucket
  publish_files commit b (from_r2 c) updates =
      write_objects md5 b (conditional (some (c.etag ∷ [])) none)
        (build_objects host (updated c.files updates) (some c.pointer.state_sha256))
  publish_files commit b (from_fallback g) updates =
      (err (failed "R2 catalog is not initialized"), b)
  publish_files commit b (from_github g) updates = (commit updates g, b)

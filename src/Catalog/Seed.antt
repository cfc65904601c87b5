-- ===== src/Catalog/Seed.antt =====
-- api/catalog-seed.js: the first copy of the catalog from GitHub to the bucket.
pub mod Safety
use autoform_panel.Catalog.Bucket.{OnlyIf, headers, text_of, Object, Bucket}
use autoform_panel.Catalog.Snapshot.{
  missing, unbound, if_absent, current, put_immutable_snapshot, put_current_pointer, r2_snapshot,
  Stored, Current, Github,
}
use autoform_panel.Catalog.State.{build_objects, catalog_version_from_files, Objects, Host}
use autoform_panel.Prelude.{
  ℕ, String, ◌≡◌, refl, Bool, true, false, not, Option, none, some, ◌==◌, if◌then◌else◌,
}
use mathlib.Core.Option
use autoform_panel.Catalog.Result.{conflict, Result, ok, err, ◌>>=◌, ◌>>◌}

-- What `buildR2CatalogSeed` returns.
pub record SeedObjects : Type 0 where
  pub version : ℕ
  pub source_revision : String
  pub objects : Objects

pub record Seeded : Type 0 where
  pub created : Bool
  pub version : ℕ
  pub etag : String
  pub snapshot_key : String

-- `expectedVersion !== undefined && expectedVersion !== version`
abbrev pub unexpected : Option ℕ → ℕ → Bool
unexpected none version = false
unexpected (some n) version = not (n == version)

abbrev check_expected : Option ℕ → ℕ → Result (Unit {0})
check_expected expected version = if unexpected expected version then err conflict else ok tt

-- `new Headers({ "If-None-Match": "*" })`
abbrev pub pointer_condition : OnlyIf
pointer_condition = headers none (some "*")

-- `meanwhile` is what other requests do to the bucket while a seed waits: first for GitHub, between
-- its read and its writes, and then between its two writes.
pub record Meanwhile : Type 0 where
  pub before_writes : Bucket → Bucket
  pub between_writes : Bucket → Bucket

module _ (md5 : String → String) (host : Host) (github : Result Github)
    (meanwhile : Meanwhile) where
  -- buildR2CatalogSeed
  unfoldable pub build_seed : Option ℕ → Result SeedObjects
  build_seed expected = do
    snapshot ← github
    let version = catalog_version_from_files host snapshot.files
    check_expected expected version
    objects ← build_objects host snapshot.files none
    ok (record { version = version; source_revision = snapshot.parent_sha; objects = objects })

  abbrev pub seeded : SeedObjects → Result Object → Result Seeded
  seeded seed r = r >>= λ (object : Object). ok (record {
    created = true;
    version = seed.version;
    etag = object.etag;
    snapshot_key = seed.objects.snapshot_key;
  })

  -- The write of the pointer, once the snapshot is written; it is skipped when that write throws.
  unfoldable pub create_pointer : Objects → Result Object × Bucket → Result Object × Bucket
  create_pointer objects (ok object, b) =
      put_current_pointer md5 (meanwhile.between_writes b) objects.pointer_text pointer_condition
  create_pointer objects (err e, b) = (err e, b)

  abbrev pub write_seed : Bucket → Result SeedObjects → Result Seeded × Bucket
  write_seed b (err e) = (err e, b)
  write_seed b (ok seed) =
      let (r, b₁) =
        create_pointer seed.objects
          (put_immutable_snapshot md5 b seed.objects.snapshot_key seed.objects.state_text) in
      (seeded seed r, b₁)

  abbrev already : Option ℕ → Current → Result Seeded
  already expected c =
      check_expected expected c.pointer.catalog_version
      >> ok (record {
        created = false;
        version = c.pointer.catalog_version;
        etag = c.etag;
        snapshot_key = c.pointer.snapshot_key;
      })

  abbrev pub seed_over : Bucket → Option ℕ → Result Stored → Result Seeded × Bucket
  seed_over b expected (err e) = (err e, b)
  seed_over b expected (ok (current c)) = (already expected c, b)
  seed_over b expected (ok unbound) = write_seed (meanwhile.before_writes b) (build_seed expected)
  seed_over b expected (ok missing) = write_seed (meanwhile.before_writes b) (build_seed expected)

  -- seedR2CatalogFromGitHub, over a bucket that is bound. The pointer is read at the start; the
  -- writes are over the buckets that other requests have left by then.
  unfoldable pub seed_from_github : Bucket → Option ℕ → Result Seeded × Bucket
  seed_from_github b expected = seed_over b expected (r2_snapshot md5 host (some b))

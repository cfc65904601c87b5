-- ===== src/Catalog/Seed/Safety.antt =====
-- A seed beside other requests.
use autoform_panel.Catalog.Snapshot.Write.{
  put_immutable_snapshot-kept, create_pointer-kept, create_pointer-refused,
}
use autoform_panel.Catalog.Seed.{
  build_seed, write_seed, seeded, create_pointer, seed_from_github, SeedObjects, Seeded, Meanwhile,
}
use autoform_panel.Catalog.Bucket.{text_of, Bucket, Object}
use autoform_panel.Catalog.Snapshot.{missing, r2_snapshot, put_immutable_snapshot, Github}
use autoform_panel.Catalog.State.{pointer_key, Host, Objects}
use autoform_panel.Prelude.{ℕ, String, ◌≡◌, refl, Option, some}
use autoform_panel.Catalog.Result.{Fault, Result, ok, err}

-- A step of other requests leaves the pointer `s` as it is.
abbrev pub KeepsPointer : (Bucket → Bucket) → String → Type 0
KeepsPointer step s =
    (b : Bucket)
    → text_of b.entries pointer_key ≡ some s
    → text_of (step b).entries pointer_key ≡ some s

-- A seed that has failed and left the pointer `s`.
abbrev pub HasLost : String → Result Seeded × Bucket → Type 0
HasLost s p = ((e : Fault) × (p.0 ≡ err e)) × (text_of p.1.entries pointer_key ≡ some s)

module _ (md5 : String → String) (host : Host) (github : Result Github) (meanwhile : Meanwhile)
    (s : String) where
  seeded-err :
      (seed : SeedObjects) (r : Result Object)
      → (e : Fault) × (r ≡ err e)
      → (e : Fault) × (seeded md5 host github meanwhile seed r ≡ err e)
  seeded-err seed r (e, same) = (e, rw same refl)

  create_pointer-lost :
      (objects : Objects) (p : Result Object × Bucket)
      → KeepsPointer meanwhile.between_writes s
      → text_of p.1.entries pointer_key ≡ some s
      → ((e : Fault) × ((create_pointer md5 host github meanwhile objects p).0 ≡ err e))
        × (text_of (create_pointer md5 host github meanwhile objects p).1.entries pointer_key
            ≡ some s)
  unfolding create_pointer
  create_pointer-lost objects (err e, b) others h = ((e, refl), h)
  create_pointer-lost objects (ok object, b) others h =
      let later = meanwhile.between_writes b in
      (
        create_pointer-refused md5 later objects.pointer_text s (others b h),
        create_pointer-kept md5 later objects.pointer_text s (others b h),
      )

  write_seed-lost :
      (b : Bucket) (r : Result SeedObjects)
      → KeepsPointer meanwhile.between_writes s
      → text_of b.entries pointer_key ≡ some s
      → HasLost s (write_seed md5 host github meanwhile b r)
  write_seed-lost b (err e) others h = ((e, refl), h)
  write_seed-lost b (ok seed) others h =
      let objects = seed.objects in
      let first = put_immutable_snapshot md5 b objects.snapshot_key objects.state_text in
      let kept =
        put_immutable_snapshot-kept md5 b objects.snapshot_key objects.state_text pointer_key s h in
      let (failed, stays) = create_pointer-lost objects first others kept in
      (seeded-err seed (create_pointer md5 host github meanwhile objects first).0 failed, stays)

  -- A seed that read no pointer, while another request has stored one before its writes that no
  -- request takes away between them, fails and leaves that pointer as it is.
  pub seed_from_github-loses :
      (b : Bucket) (expected : Option ℕ)
      → r2_snapshot md5 host (some b) ≡ ok missing
      → text_of (meanwhile.before_writes b).entries pointer_key ≡ some s
      → KeepsPointer meanwhile.between_writes s
      → HasLost s (seed_from_github md5 host github meanwhile b expected)
  unfolding seed_from_github
  seed_from_github-loses b expected absent arrived others = rw absent (
      write_seed-lost (meanwhile.before_writes b) (build_seed md5 host github meanwhile expected)
        others arrived)

-- ===== src/Catalog/Snapshot/Race.antt =====
-- Two publishes over one snapshot.
use autoform_panel.Catalog.Bucket.Laws.{text_of-store_text}
use autoform_panel.Catalog.Snapshot.Write.{
  first_write, put_immutable_snapshot-kept, write_objects-ok,
}
use autoform_panel.Catalog.Snapshot.{
  write_objects, updated, from_r2, Current, publish_files, Github,
}
use autoform_panel.Catalog.Bucket.{
  text_of, OnlyIf, Bucket, Object, unquote, conditional, precondition_holds,
}
use autoform_panel.Catalog.State.{pointer_key, build_objects, Objects, Files, Host}
use autoform_panel.Prelude.{
  refl, ap, ◌∙◌, String, ◌≡◌, true, Option, none, some, [], ◌∷◌, arith, eq_iff,
}
use autoform_panel.Catalog.Result.{Result, ok, err}

-- The ETag that a compare-and-set names, as the bucket compares it.
matching :
    (etag : String) (stored : Option String)
    → precondition_holds (conditional (some (etag ∷ [])) none) stored ≡ true
    → ¬ (unquote etag ≡ "*")
    → stored ≡ some (unquote etag)
unfolding precondition_holds
matching etag none h star = cc
matching etag (some t) h star = ground (arith, eq_iff (unquote etag) "*", eq_iff (unquote etag) t)

some-injective : {A : Type 0} {a b : A} → some a ≡ some b → a ≡ b
some-injective h = cc

module _ (md5 : String → String) (b : Bucket) (only_if : OnlyIf) (o : Object) where
  write_objects-built :
      (r : Result Objects)
      → (write_objects md5 b only_if r).0 ≡ ok o
      → (objects : Objects) × (r ≡ ok objects)
        × ((write_objects md5 b only_if (ok objects)).0 ≡ ok o)
  write_objects-built (ok objects) h = (objects, refl, h)
  write_objects-built (err e) h = cc

module _ (md5 : String → String) (host : Host) (commit : Files → Github → Result Object) where
  publish_files-built :
      (b : Bucket) (c : Current) (updates : Files) (o : Object)
      → (publish_files md5 host commit b (from_r2 c) updates).0 ≡ ok o
      → (objects : Objects) × (build_objects host
            (updated c.files updates)
            (some c.pointer.state_sha256)
          ≡ ok objects)
        × ((write_objects md5 b (conditional (some (c.etag ∷ [])) none) (ok objects)).0 ≡ ok o)
  unfolding publish_files
  publish_files-built b c updates o h =
      write_objects-built md5 b (conditional (some (c.etag ∷ [])) none) o
        (build_objects host (updated c.files updates) (some c.pointer.state_sha256)) h

  -- The pointer after a publish that returned: its text has the ETag that the publish reported.
  publish_files-pointer :
      (b : Bucket) (c : Current) (updates : Files) (o : Object)
      → (publish_files md5 host commit b (from_r2 c) updates).0 ≡ ok o
      → text_of (publish_files md5 host commit b (from_r2 c) updates).1.entries pointer_key
          ≡ some o.text
        × (o.etag ≡ md5 o.text)
  unfolding publish_files
  publish_files-pointer b c updates o h =
      let only_if = conditional (some (c.etag ∷ [])) none in
      let (objects, built, w) = publish_files-built b c updates o h in
      let (p, s, e, same) = write_objects-ok md5 b only_if objects o w in
      (
        rw built (
            rw e (
              rw same (
                ground (
                  arith,
                  eq_iff pointer_key pointer_key,
                  text_of-store_text (first_write md5 b only_if objects).1.entries pointer_key
                      objects.pointer_text pointer_key,
                )))),
        rw same refl,
      )

  -- A publish returns only if the stored pointer still has the ETag that its snapshot was read with.
  publish_files-swaps :
      (b : Bucket) (c : Current) (updates : Files) (o : Object) (at : String)
      → text_of b.entries pointer_key ≡ some at
      → (publish_files md5 host commit b (from_r2 c) updates).0 ≡ ok o
      → ¬ (unquote c.etag ≡ "*")
      → md5 at ≡ unquote c.etag
  publish_files-swaps b c updates o at t h star =
      let only_if = conditional (some (c.etag ∷ [])) none in
      let (objects, built, w) = publish_files-built b c updates o h in
      let (p, s, e, same) = write_objects-ok md5 b only_if objects o w in
      let kept =
        put_immutable_snapshot-kept md5 b objects.snapshot_key objects.state_text pointer_key at
          t in
      some-injective (matching c.etag (some (md5 at)) (rw kept at p) star)

  -- Of two publishes over one ETag the second never returns, if the pointer of the first has another
  -- ETag and that ETag is not the wildcard.
  pub second_publish-loses :
      (b : Bucket) (c d : Current) (updates more : Files) (o lost : Object)
      → (publish_files md5 host commit b (from_r2 c) updates).0 ≡ ok o
      → d.etag ≡ c.etag
      → ¬ (unquote c.etag ≡ "*")
      → ¬ (o.etag ≡ unquote c.etag)
      → ¬ (
          (publish_files md5 host commit
            (publish_files md5 host commit b (from_r2 c) updates).1
            (from_r2 d)
            more).0
          ≡ ok lost)
  second_publish-loses b c d updates more o lost h same star new w =
      let (p, tag) = publish_files-pointer b c updates o h in
      let swapped =
        publish_files-swaps (publish_files md5 host commit b (from_r2 c) updates).1 d more lost
          o.text p w (rw same star) in
      new (tag ∙ swapped ∙ ap unquote same)

-- ===== src/Catalog/Snapshot/Publish.antt =====
-- Publishing files over a current snapshot, and reading after it.
use autoform_panel.Catalog.Snapshot.Write.{
  write_objects-ok, first_write, put_immutable_snapshot-kept, write_objects-entries,
}
use autoform_panel.Catalog.Bucket.Laws.{text_of-store_text}
use autoform_panel.Js.Text.{is_sha256}
use autoform_panel.Catalog.State.Roundtrip.{
  decode_state-encode_state, decode_pointer-pointer_value, pointer_of,
}
use autoform_panel.Catalog.Snapshot.Read.{IsCurrent-r2_snapshot, IsNamed, IsCurrent}
use autoform_panel.Catalog.Snapshot.{
  write_objects, from_r2, current, r2_snapshot, Github, publish_files, updated, Current,
}
use autoform_panel.Catalog.Bucket.{conditional, Object, store_text, Entry, text_of, Bucket}
use autoform_panel.Js.Value.{Value}
use autoform_panel.Catalog.State.{
  snapshot_prefix, pointer_key, snapshot_key_of, pointer_value, state_value, objects_of,
  encode_state, Objects, max_app_catalog_version, Files, version_from, validate_contract,
  build_objects, Host,
}
use autoform_panel.Prelude.{
  Bool-cases, ◌⊎◌, inl, inr, none, List, [], ◌∷◌, eq_iff, refl, sym, ap, ◌∙◌, true, false, str_eq,
  ℕ, ◌≤◌, String, ◌≡◌, Option, some, arith,
}
use autoform_panel.Catalog.Result.{Result, ok}
use Prim.Native.String
use text.Mathlib.TextPositions.{starts_with-append}
use text.Mathlib.Text.{starts_with}

false-ne-true : ¬ (false ≡ true)
false-ne-true h = cc

-- The pointer is no snapshot: its key has another start.
key-apart : (t : String) → str_eq pointer_key (String.◌++◌ snapshot_prefix t) ≡ false
key-apart t = elim (Bool-cases (str_eq pointer_key (String.◌++◌ snapshot_prefix t))) [
  | inl e ↦
      let same : false ≡ starts_with (String.◌++◌ snapshot_prefix t) snapshot_prefix =
        ap (λ (v : String). starts_with v snapshot_prefix)
          ((eq_iff pointer_key (String.◌++◌ snapshot_prefix t)).0 e) in
      absurd (false-ne-true (same ∙ starts_with-append snapshot_prefix t))
  | inr e ↦ e
]

version_from-bound : (v : Value) (n : ℕ) → version_from 1 v ≡ some n → n ≤ max_app_catalog_version
version_from-bound v n h = ground arith

module _ (host : Host) where
  validate_contract-bound :
      (files : Files) (version : ℕ)
      → validate_contract host files ≡ ok version
      → version ≤ max_app_catalog_version
  unfolding validate_contract
  validate_contract-bound files version h = ground arith

  build_objects-parts :
      (files : Files) (parent : Option String) (objects : Objects)
      → build_objects host files parent ≡ ok objects
      → (validate_contract host files ≡ ok objects.catalog_version)
        × (encode_state host files parent ≡ ok objects.state_text)
        × (objects ≡ objects_of host objects.state_text objects.catalog_version)
  unfolding build_objects
  build_objects-parts files parent objects h = ground arith

module _ (md5 : String → String) where
  -- What a publish of `updates` over `c` makes current.
  abbrev pub next_current : Current → Files → Objects → Current
  next_current c updates objects = record {
    etag = md5 objects.pointer_text;
    pointer = pointer_of objects.state_sha256 objects.catalog_version;
    parent = some c.pointer.state_sha256;
    files = updated c.files updates;
  }

module _ (md5 : String → String) (host : Host) where
  IsCurrent-entries :
      (b b₁ : Bucket) (c : Current)
      → b₁.entries ≡ b.entries
      → IsCurrent md5 host b c
      → IsCurrent md5 host b₁ c
  IsCurrent-entries b b₁ c e (at, stored, t, n) = (at, stored, rw e t, rw e n)

module _ (md5 : String → String) (host : Host) (c : Current) (updates : Files) (objects : Objects)
    (built : build_objects host (updated c.files updates) (some c.pointer.state_sha256)
      ≡ ok objects)
    (digest : is_sha256 (host.sha256_hex objects.state_text) ≡ true)
    (tag : str_eq (md5 objects.pointer_text) "" ≡ false)
    (reads_state : host.parse
        (host.stringify (state_value (updated c.files updates) (some c.pointer.state_sha256)))
      ≡ some (state_value (updated c.files updates) (some c.pointer.state_sha256)))
    (reads_pointer : host.parse
        (host.stringify (pointer_value (pointer_of objects.state_sha256 objects.catalog_version)))
      ≡ some (pointer_value (pointer_of objects.state_sha256 objects.catalog_version))) where
  abbrev next : Current
  next = next_current md5 c updates objects

  next-IsNamed :
      (b : Bucket)
      → text_of b.entries objects.snapshot_key ≡ some objects.state_text
      → IsNamed md5 host b next objects.pointer_text objects.state_text
  next-IsNamed b t =
      let (v, e, same) =
        build_objects-parts host (updated c.files updates) (some c.pointer.state_sha256) objects
          built in
      let small =
        validate_contract-bound host (updated c.files updates) objects.catalog_version v in
      let sha : objects.state_sha256 ≡ host.sha256_hex objects.state_text =
        ap (λ (x : Objects). x.state_sha256) same in
      let key : objects.snapshot_key ≡ snapshot_key_of objects.state_sha256 =
        ap (λ (x : Objects). x.snapshot_key) same ∙ ap snapshot_key_of (sym sha) in
      let text : objects.pointer_text
          ≡ host.stringify
              (pointer_value (pointer_of objects.state_sha256 objects.catalog_version)) =
        ap (λ (x : Objects). x.pointer_text) same
        ∙ ap (λ (d : String). host.stringify (pointer_value (pointer_of d objects.catalog_version)))
            (sym sha) in
      (
        refl,
        tag,
        rw text (
            decode_pointer-pointer_value host objects.state_sha256 objects.catalog_version
              (rw sha digest) (omega arith) reads_pointer),
        rw (← key) t,
        sym sha,
        decode_state-encode_state host (updated c.files updates) (some c.pointer.state_sha256)
            objects.state_text reads_state e,
        v,
      )

  apart : str_eq pointer_key objects.snapshot_key ≡ false
  apart =
      let (v, e, same) =
        build_objects-parts host (updated c.files updates) (some c.pointer.state_sha256) objects
          built in
      rw same (key-apart (String.◌++◌ (host.sha256_hex objects.state_text) ".json"))

  next-IsCurrent :
      (entries : List Entry) (b : Bucket)
      → text_of entries objects.snapshot_key ≡ some objects.state_text
      → b.entries ≡ store_text entries pointer_key objects.pointer_text
      → r2_snapshot md5 host (some b) ≡ ok (current next)
  next-IsCurrent entries b t e =
      let at : text_of b.entries pointer_key ≡ some objects.pointer_text = rw e (
        ground (
          arith,
          text_of-store_text entries pointer_key objects.pointer_text pointer_key,
          eq_iff pointer_key pointer_key,
        )) in
      let stored : text_of b.entries objects.snapshot_key ≡ some objects.state_text = rw e (
        ground (
          arith,
          apart,
          t,
          text_of-store_text entries pointer_key objects.pointer_text objects.snapshot_key,
        )) in
      IsCurrent-r2_snapshot md5 host b next
        (objects.pointer_text, objects.state_text, at, next-IsNamed b stored)

  -- For files that keep the contract, a SHA-256 in its usual form, an ETag that is not empty and a
  -- host that reads back the state and the pointer that it prints: whatever the disk does during a
  -- publish over the current snapshot of the bucket, a read after it sees that snapshot, or the one
  -- that the publish made.
  pub publish_files-atomic :
      (commit : Files → Github → Result Object) (b : Bucket)
      → IsCurrent md5 host b c
      → let after = (publish_files md5 host commit b (from_r2 c) updates).1 in
        (r2_snapshot md5 host (some after) ≡ ok (current c))
        ⊎ (r2_snapshot md5 host (some after) ≡ ok (current next))
  unfolding publish_files
  publish_files-atomic commit b (at, stored, p, (etag, n, d, t, sha, state, v)) =
      rw built (elim (write_objects-entries md5 b (conditional (some (c.etag ∷ [])) none) objects) [
        | inl e ↦ inl (
            IsCurrent-r2_snapshot md5 host
              (write_objects md5 b (conditional (some (c.etag ∷ [])) none) (ok objects)).1 c
              (
                at,
                stored,
                rw e (
                    put_immutable_snapshot-kept md5 b objects.snapshot_key objects.state_text
                      pointer_key at p),
                (
                  etag,
                  n,
                  d,
                  rw e (
                      put_immutable_snapshot-kept md5 b objects.snapshot_key objects.state_text
                        c.pointer.snapshot_key stored t),
                  sha,
                  state,
                  v,
                ),
              ))
        | inr (s, e) ↦ inr (
            next-IsCurrent
              (first_write md5 b (conditional (some (c.etag ∷ [])) none) objects).1.entries
              (write_objects md5 b (conditional (some (c.etag ∷ [])) none) (ok objects)).1 s e)
      ])

  -- For files that keep the contract, a SHA-256 in its usual form, an ETag that is not empty and a
  -- host that reads back the state and the pointer that it prints: a publish that returns has made
  -- its snapshot the current one, so that a read sees the files with the updates, and the ETag that
  -- the publish reported.
  pub publish_files-ok :
      (commit : Files → Github → Result Object) (b : Bucket) (o : Object)
      → (publish_files md5 host commit b (from_r2 c) updates).0 ≡ ok o
      → (r2_snapshot md5 host (some (publish_files md5 host commit b (from_r2 c) updates).1)
          ≡ ok (current next))
        × (o.etag ≡ next.etag)
  unfolding publish_files
  publish_files-ok commit b o h =
      let only_if = conditional (some (c.etag ∷ [])) none in
      let (p, s, e, same) = write_objects-ok md5 b only_if objects o (rw built at h) in
      (
        rw built (
            next-IsCurrent (first_write md5 b only_if objects).1.entries
              (write_objects md5 b only_if (ok objects)).1 s e),
        ap (λ (x : Object). x.etag) same,
      )

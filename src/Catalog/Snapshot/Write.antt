-- ===== src/Catalog/Snapshot/Write.antt =====
-- The two writes of a publish.
use autoform_panel.Catalog.Bucket.Laws.{
  text_of-store_text, put_object-written, put_object-entries, put_object-if_absent, absent-holds,
}
use autoform_panel.Catalog.State.{pointer_key, Objects}
use autoform_panel.Catalog.Snapshot.{
  snapshot_result, pointer_result, if_absent, then_pointer, write_objects, put_current_pointer,
  put_immutable_snapshot,
}
use autoform_panel.Catalog.Bucket.{
  broke, refused, written, put_object, Written, object_of, precondition_holds, store_text, Object,
  text_of, get_object, OnlyIf, Bucket,
}
use autoform_panel.Prelude.{
  refl, inl, inr, arith, eq_iff, Option-cases, String, ◌≡◌, ◌⊎◌, true, some,
}
use mathlib.Core.Option
use autoform_panel.Catalog.Result.{Fault, Result, ok, err}

module _ (md5 : String → String) where
  snapshot_result-ok :
      (b : Bucket) (k t : String) (w : Written) (o : Object)
      → snapshot_result md5 b k t w ≡ ok o
      → (w ≡ written o) ⊎ (text_of b.entries k ≡ some t)
  unfolding get_object
  snapshot_result-ok b k t (written object) o h = ground arith
  snapshot_result-ok b k t refused o h = elim (Option-cases (text_of b.entries k)) [
    | inl e ↦ ground arith
    | inr (s, e) ↦ ground (arith, eq_iff s t)
  ]
  snapshot_result-ok b k t broke o h = cc

  pointer_result-ok : (w : Written) (o : Object) → pointer_result md5 w ≡ ok o → w ≡ written o
  pointer_result-ok (written object) o h = ground arith
  pointer_result-ok refused o h = cc
  pointer_result-ok broke o h = cc

module _ (md5 : String → String) (b : Bucket) (k t : String) where
  -- Writing a snapshot changes no object that exists.
  pub put_immutable_snapshot-kept :
      (j s : String)
      → text_of b.entries j ≡ some s
      → text_of (put_immutable_snapshot md5 b k t).1.entries j ≡ some s
  unfolding put_immutable_snapshot
  put_immutable_snapshot-kept = put_object-if_absent md5 b k t

  -- A snapshot write that returns has left exactly these bytes under the key.
  pub put_immutable_snapshot-ok :
      (o : Object)
      → (put_immutable_snapshot md5 b k t).0 ≡ ok o
      → text_of (put_immutable_snapshot md5 b k t).1.entries k ≡ some t
  unfolding put_immutable_snapshot get_object
  put_immutable_snapshot-ok o h =
      elim (snapshot_result-ok md5 (put_object md5 b k t if_absent).1 k t
        (put_object md5 b k t if_absent).0 o h) [
          | inl e ↦
              let (p, stored, same) = put_object-written md5 b k t if_absent o e in
              rw stored (ground (arith, text_of-store_text b.entries k t k, eq_iff k k))
          | inr e ↦ e
        ]

module _ (md5 : String → String) (b : Bucket) (t : String) (only_if : OnlyIf) where
  pub put_current_pointer-entries :
      ((put_current_pointer md5 b t only_if).1.entries ≡ b.entries)
      ⊎ ((put_current_pointer md5 b t only_if).1.entries ≡ store_text b.entries pointer_key t)
  unfolding put_current_pointer
  put_current_pointer-entries = put_object-entries md5 b pointer_key t only_if

  pub put_current_pointer-ok :
      (o : Object)
      → (put_current_pointer md5 b t only_if).0 ≡ ok o
      → (precondition_holds only_if (Option.map md5 (text_of b.entries pointer_key)) ≡ true)
        × ((put_current_pointer md5 b t only_if).1.entries ≡ store_text b.entries pointer_key t)
        × (o ≡ object_of md5 t)
  unfolding put_current_pointer
  put_current_pointer-ok o h =
      put_object-written md5 b pointer_key t only_if o
        (pointer_result-ok md5 (put_object md5 b pointer_key t only_if).0 o h)

module _ (md5 : String → String) (only_if : OnlyIf) (text : String) where
  then_pointer-entries :
      (r : Result Object) (b : Bucket)
      → ((then_pointer md5 only_if text (r, b)).1.entries ≡ b.entries)
        ⊎ (((o : Object) × (r ≡ ok o))
            × ((then_pointer md5 only_if text (r, b)).1.entries
                ≡ store_text b.entries pointer_key text))
  then_pointer-entries (err e) b = inl refl
  then_pointer-entries (ok o) b = elim (put_current_pointer-entries md5 b text only_if) [
    | inl e ↦ inl e
    | inr e ↦ inr ((o, refl), e)
  ]

  then_pointer-ok :
      (r : Result Object) (b : Bucket) (o : Object)
      → (then_pointer md5 only_if text (r, b)).0 ≡ ok o
      → ((first : Object) × (r ≡ ok first))
        × (precondition_holds only_if (Option.map md5 (text_of b.entries pointer_key)) ≡ true)
        × ((then_pointer md5 only_if text (r, b)).1.entries ≡ store_text b.entries pointer_key text)
        × (o ≡ object_of md5 text)
  then_pointer-ok (err e) b o h = cc
  then_pointer-ok (ok first) b o h =
      let (p, e, same) = put_current_pointer-ok md5 b text only_if o h in
      ((first, refl), p, e, same)

module _ (md5 : String → String) (b : Bucket) (only_if : OnlyIf) (objects : Objects) where
  abbrev pub first_write : Result Object × Bucket
  first_write = put_immutable_snapshot md5 b objects.snapshot_key objects.state_text

  -- After a publish the bucket holds what the snapshot write left; or the pointer was stored after
  -- a snapshot write that returned.
  pub write_objects-entries :
      ((write_objects md5 b only_if (ok objects)).1.entries ≡ first_write.1.entries)
      ⊎ ((text_of first_write.1.entries objects.snapshot_key ≡ some objects.state_text)
          × ((write_objects md5 b only_if (ok objects)).1.entries
              ≡ store_text first_write.1.entries pointer_key objects.pointer_text))
  write_objects-entries =
      elim (then_pointer-entries md5 only_if objects.pointer_text first_write.0 first_write.1) [
        | inl e ↦ inl e
        | inr ((o, w), e) ↦
            inr (put_immutable_snapshot-ok md5 b objects.snapshot_key objects.state_text o w, e)
      ]

  pub write_objects-ok :
      (o : Object)
      → (write_objects md5 b only_if (ok objects)).0 ≡ ok o
      → (precondition_holds only_if (Option.map md5 (text_of first_write.1.entries pointer_key))
          ≡ true)
        × (text_of first_write.1.entries objects.snapshot_key ≡ some objects.state_text)
        × ((write_objects md5 b only_if (ok objects)).1.entries
            ≡ store_text first_write.1.entries pointer_key objects.pointer_text)
        × (o ≡ object_of md5 objects.pointer_text)
  write_objects-ok o h =
      let ((first, w), p, e, same) =
        then_pointer-ok md5 only_if objects.pointer_text first_write.0 first_write.1 o h in
      (p, put_immutable_snapshot-ok md5 b objects.snapshot_key objects.state_text first w, e, same)

-- A pointer that is created only if absent.
module _ (md5 : String → String) (b : Bucket) (t s : String) where
  pub create_pointer-kept :
      text_of b.entries pointer_key ≡ some s
      → text_of (put_current_pointer md5 b t if_absent).1.entries pointer_key ≡ some s
  unfolding put_current_pointer
  create_pointer-kept = put_object-if_absent md5 b pointer_key t pointer_key s

  refused_over :
      (r : Result Object)
      → text_of b.entries pointer_key ≡ some s
      → (put_current_pointer md5 b t if_absent).0 ≡ r
      → (e : Fault) × (r ≡ err e)
  refused_over (err e) h w = (e, refl)
  refused_over (ok o) h w =
      let (allowed, stored, same) = put_current_pointer-ok md5 b t if_absent o w in
      let broken = rw (h, absent-holds (md5 s)) at allowed in cc

  pub create_pointer-refused :
      text_of b.entries pointer_key ≡ some s
      → (e : Fault) × ((put_current_pointer md5 b t if_absent).0 ≡ err e)
  create_pointer-refused h = refused_over (put_current_pointer md5 b t if_absent).0 h refl

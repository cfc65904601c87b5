-- ===== src/Catalog/Bucket/Laws.antt =====
-- Conditional writes: creation if absent, and compare-and-set on the ETag.
use autoform_panel.Catalog.Bucket.{
  unquote, later_disks, object_of, next_disk, fails_after, written, fails_before, fine, Object,
  store_with, OnlyIf, put_object, headers, Disk, precondition_holds, Bucket, store_text, text_of,
  Entry,
}
use autoform_panel.Prelude.{
  Option-cases, ◌⊎◌, inl, inr, true, false, none, Bool-cases, String, ◌≡◌, refl, some, List, [],
  ◌∷◌, arith, eq_iff, str_eq, if◌then◌else◌,
}
use autoform_panel.Js.Text.{trim}
use autoform_panel.Pairing.Crypto.{split_commas}
use mathlib.Core.Option

pub text_of-store_text :
    (es : List Entry) (k : String) (t : String) (j : String)
    → text_of (store_text es k t) j ≡ (if str_eq k j then some t else text_of es j)
text_of-store_text [] k t j = refl
text_of-store_text (e ∷ es) k t j =
    ground (arith, text_of-store_text es k t j, eq_iff e.key k, eq_iff e.key j, eq_iff k j)

-- Creation only if absent is refused where an object exists.
pub absent-holds :
    (etag : String) → precondition_holds (headers none (some "*")) (some etag) ≡ false
unfolding precondition_holds split_commas unquote trim
absent-holds etag = refl

module _ (md5 : String → String) (b : Bucket) (k t : String) where
  store_with-entries :
      (d : Disk) (b₁ : Bucket)
      → ((store_with md5 d b₁ k t).1.entries ≡ b₁.entries)
        ⊎ ((store_with md5 d b₁ k t).1.entries ≡ store_text b₁.entries k t)
  store_with-entries fine b₁ = inr refl
  store_with-entries fails_before b₁ = inl refl
  store_with-entries fails_after b₁ = inr refl

  -- A put leaves every object as it was, or stores its own.
  pub put_object-entries :
      (o : OnlyIf)
      → ((put_object md5 b k t o).1.entries ≡ b.entries)
        ⊎ ((put_object md5 b k t o).1.entries ≡ store_text b.entries k t)
  unfolding put_object
  put_object-entries o =
      elim (Bool-cases (precondition_holds o (Option.map md5 (text_of b.entries k)))) [
        | inl e ↦
            rw e
              (store_with-entries (next_disk b.faults) (record b { faults = later_disks b.faults }))
        | inr e ↦ rw e (inl refl)
      ]

  -- A put that reports its object has stored it, and its precondition held.
  pub put_object-written :
      (o : OnlyIf) (object : Object)
      → (put_object md5 b k t o).0 ≡ written object
      → (precondition_holds o (Option.map md5 (text_of b.entries k)) ≡ true)
        × ((put_object md5 b k t o).1.entries ≡ store_text b.entries k t)
        × (object ≡ object_of md5 t)
  unfolding put_object
  put_object-written o object h = ground arith

  -- A put that creates only if absent changes no object that exists.
  pub put_object-if_absent :
      (j s : String)
      → text_of b.entries j ≡ some s
      → text_of (put_object md5 b k t (headers none (some "*"))).1.entries j ≡ some s
  unfolding put_object
  put_object-if_absent j s h = elim (Option-cases (text_of b.entries k)) [
    | inl e ↦ ground (
      arith,
      e,
      text_of-store_text b.entries k t j,
      eq_iff k j,
      put_object-entries (headers none (some "*")),
    )
    | inr (old, e) ↦ rw (e, absent-holds (md5 old)) h
  ]

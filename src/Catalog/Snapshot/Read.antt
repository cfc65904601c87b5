-- ===== src/Catalog/Snapshot/Read.antt =====
-- The checks behind a snapshot that is read.
use autoform_panel.Catalog.Snapshot.{Stored, r2_snapshot, current, named_snapshot, Current}
use autoform_panel.Catalog.Bucket.{object_of, text_of, get_object, Bucket}
use autoform_panel.Catalog.State.{
  validate_contract, pointer_key, decode_state, decode_pointer, Host,
}
use autoform_panel.Prelude.{eq_iff, String, ◌≡◌, false, some, arith, str_eq}
use autoform_panel.Catalog.Result.{Result, ok}

module _ (md5 : String → String) (host : Host) where
  -- The checks that lie behind a current snapshot, over the texts of the pointer and of the state.
  abbrev pub IsNamed : Bucket → Current → String → String → Type 0
  IsNamed b c at stored =
      (c.etag ≡ md5 at)
      × (str_eq (md5 at) "" ≡ false)
      × (decode_pointer host at ≡ ok c.pointer)
      × (text_of b.entries c.pointer.snapshot_key ≡ some stored)
      × (host.sha256_hex stored ≡ c.pointer.state_sha256)
      × (decode_state host stored ≡ ok (record { parent = c.parent; files = c.files }))
      × (validate_contract host c.files ≡ ok c.pointer.catalog_version)

  -- The bucket holds the current snapshot `c`.
  abbrev pub IsCurrent : Bucket → Current → Type 0
  IsCurrent b c =
      (at : String) × (stored : String) × (text_of b.entries pointer_key ≡ some at)
      × IsNamed b c at stored

  IsNamed-named_snapshot :
      (b : Bucket) (at stored : String) (c : Current)
      → IsNamed b c at stored
      → named_snapshot md5 host b (object_of md5 at) ≡ ok (current c)
  unfolding get_object
  IsNamed-named_snapshot b at stored c (e, n, p, t, s, d, v) =
      rw (n, p, t, (eq_iff (host.sha256_hex stored) c.pointer.state_sha256).1 s, d, v)
        (ground arith)

  at_pointer :
      (b : Bucket) (at : String)
      → text_of b.entries pointer_key ≡ some at
      → (stored : Result Stored) → named_snapshot md5 host b (object_of md5 at) ≡ stored
      → r2_snapshot md5 host (some b) ≡ stored
  unfolding r2_snapshot get_object
  at_pointer b at t stored h = ground arith

  -- Whatever passes those checks is read as the current snapshot.
  pub IsCurrent-r2_snapshot :
      (b : Bucket) (c : Current) → IsCurrent b c → r2_snapshot md5 host (some b) ≡ ok (current c)
  IsCurrent-r2_snapshot b c (at, stored, t, n) =
      at_pointer b at t (ok (current c)) (IsNamed-named_snapshot b at stored c n)

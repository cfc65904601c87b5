-- ===== src/Catalog/State/Roundtrip.antt =====
-- Writing and reading states and pointers.
use text.Mathlib.TextPositions.{eq_refl}
use autoform_panel.Catalog.Result.{ok-injective, bind-eq-ok, ok}
use autoform_panel.Js.Value.{max_safe_integer}
use autoform_panel.Js.Text.{is_sha256}
use autoform_panel.Catalog.State.{
  panel_settings_path, manifest_path, profiles_path, value_of, text_or_null, files_value, Host,
  state_value, pointer_value, snapshot_key_of, Files, normalized_files, Pointer, normalized_parent,
  decode_state, encode_state, decode_pointer,
}
use autoform_panel.Prelude.{
  refl, sym, ap, ◌∙◌, none, arith, le→leb, ℕ, ◌≤◌, String, ◌≡◌, true, Option, some,
}

text_or_null-value_of : (o : Option String) (path : String) → text_or_null (value_of o) path ≡ ok o
text_or_null-value_of none path = refl
text_or_null-value_of (some s) path = refl

normalized_files-files_value : (files : Files) → normalized_files (files_value files) ≡ ok files
unfolding normalized_files
normalized_files-files_value files = rw (
  text_or_null-value_of files.profiles profiles_path,
  text_or_null-value_of files.manifest manifest_path,
  text_or_null-value_of files.settings panel_settings_path,
)

normalized_parent-same :
    (parent digest : Option String)
    → normalized_parent (value_of parent) ≡ ok digest
    → digest ≡ parent
unfolding normalized_parent
normalized_parent-same none digest h = cc
normalized_parent-same (some s) digest h = ground arith

abbrev pub pointer_of : String → ℕ → Pointer
pointer_of digest version = record {
  snapshot_key = snapshot_key_of digest;
  state_sha256 = digest;
  catalog_version = version;
}

module _ (host : Host) where
  decode_state-state_value :
      (files : Files) (parent : Option String)
      → normalized_parent (value_of parent) ≡ ok parent
      → host.parse (host.stringify (state_value files parent)) ≡ some (state_value files parent)
      → decode_state host (host.stringify (state_value files parent))
        ≡ ok (record { parent = parent; files = files })
  unfolding decode_state
  decode_state-state_value files parent n p = rw (p, n, normalized_files-files_value files)

  -- A state that is encoded is decoded to itself, where JSON reads back the object that it printed.
  pub decode_state-encode_state :
      (files : Files) (parent : Option String) (text : String)
      → host.parse (host.stringify (state_value files parent)) ≡ some (state_value files parent)
      → encode_state host files parent ≡ ok text
      → decode_state host text ≡ ok (record { parent = parent; files = files })
  unfolding encode_state
  decode_state-encode_state files parent text p e =
      let (digest, n, s) =
        bind-eq-ok (normalized_parent (value_of parent))
          (λ (d : Option String). ok (host.stringify (state_value files d))) e in
      let same = normalized_parent-same parent digest n in
      let printed : host.stringify (state_value files parent) ≡ text =
        ok-injective
          (ap (λ (d : Option String). ok (host.stringify (state_value files d))) (sym same) ∙ s) in
      rw (← printed) (decode_state-state_value files parent (rw same at n) p)

  -- The pointer to a snapshot is decoded to itself, if it names a digest and a safe version and
  -- JSON reads back the object that it printed.
  pub decode_pointer-pointer_value :
      (digest : String) (version : ℕ)
      → is_sha256 digest ≡ true
      → version ≤ max_safe_integer
      → host.parse (host.stringify (pointer_value (pointer_of digest version)))
        ≡ some (pointer_value (pointer_of digest version))
      → decode_pointer host (host.stringify (pointer_value (pointer_of digest version)))
        ≡ ok (pointer_of digest version)
  unfolding decode_pointer
  decode_pointer-pointer_value digest version d v p =
      rw (p, d, eq_refl (snapshot_key_of digest), le→leb version max_safe_integer v)

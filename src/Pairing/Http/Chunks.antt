-- ===== src/Pairing/Http/Chunks.antt =====
-- A body is read the same however the stream splits it.
use autoform_panel.Js.Value.{null, Value}
use autoform_panel.Pairing.Http.{
  value_of, has_bom, length_allowed, json_content_type, Incoming, read_body, decode_body,
  read_small_json, zeros, set_at, read_chunks, overwrite, copy_chunks,
}
use autoform_panel.Prelude.{
  suc, ◌∙◌, Bool, not, ◌||◌, Option, append_assoc, ◌==◌, ℕ, ◌+◌, ◌≤◌, ◌≡◌, refl, ap, none, some,
  List, [], ◌∷◌, ◌++◌, arith, ltb, if◌then◌else◌, length, length-append,
}

abbrev pub joined : List (List ℕ) → List ℕ
joined [] = []
joined (chunk ∷ more) = chunk ++ joined more

overwrite-append :
    (chunk : List ℕ) (n : ℕ) → overwrite (zeros (length chunk + n)) chunk ≡ chunk ++ zeros n
overwrite-append [] n = let e : 0 + n ≡ n = omega arith in rw e
overwrite-append (c ∷ cs) n =
    let e : suc (length cs) + n ≡ suc (length cs + n) = omega arith in rw (e, overwrite-append cs n)

set_at-append :
    (front bytes chunk : List ℕ)
    → set_at (front ++ bytes) (length front) chunk ≡ front ++ overwrite bytes chunk
set_at-append [] bytes chunk = refl
set_at-append (b ∷ front) bytes chunk = ap (λ (r : List ℕ). b ∷ r) (set_at-append front bytes chunk)

copy_chunks-joined :
    (front : List ℕ) (chunks : List (List ℕ))
    → copy_chunks (front ++ zeros (length (joined chunks))) (length front) chunks
      ≡ front ++ joined chunks
unfolding copy_chunks
copy_chunks-joined front [] = refl
copy_chunks-joined front (chunk ∷ more) =
    rw (length-append chunk (joined more), set_at-append, overwrite-append)
      (rw (← append_assoc, ← length-append front chunk)
        (copy_chunks-joined (front ++ chunk) more ∙ append_assoc front chunk (joined more)))

read_chunks-joined :
    (maximum read : ℕ) (chunks : List (List ℕ))
    → read ≤ maximum
    → read_chunks maximum read chunks ≡ (
        if ltb maximum (read + length (joined chunks))
        then none
        else some (read + length (joined chunks)))
unfolding read_chunks
read_chunks-joined maximum read [] h = ground arith
read_chunks-joined maximum read (chunk ∷ more) h = ground (
  arith,
  read_chunks-joined maximum (read + length chunk) more,
  length-append chunk (joined more),
)

read_all :
    (maximum : ℕ) (chunks : List (List ℕ))
    → read_chunks maximum 0 chunks
      ≡ (if ltb maximum (length (joined chunks)) then none else some (length (joined chunks)))
read_all maximum chunks =
    let e : 0 + length (joined chunks) ≡ length (joined chunks) = omega arith in
    rw (read_chunks-joined maximum 0 chunks (omega arith), e)

module _ (decode : List ℕ → Option Value) where
  read_body_lem :
      (maximum : ℕ) (broken : Bool) (chunks : List (List ℕ))
      → read_body decode maximum broken chunks ≡ (
          if ltb maximum (length (joined chunks)) || broken || length (joined chunks) == 0
          then null
          else decode_body decode (joined chunks))
  unfolding read_body
  read_body_lem maximum broken chunks =
      ground (arith, read_all maximum chunks, copy_chunks-joined [] chunks)

-- A JSON body is read if and only if its headers are accepted, its stream does not fail and it
-- has from one byte to the maximum in all, with no byte order mark, and then as the decoding of
-- the chunks put together: neither the sizes of the chunks nor the length that is declared matter.
pub read_small_json_lem :
    (decode : List ℕ → Option Value) (maximum : ℕ) (request : Incoming) (chunks : List (List ℕ))
    → request.chunks ≡ some chunks
    → read_small_json decode maximum request ≡ (
        if not (json_content_type request.content_type)
          || not (length_allowed maximum request.content_length)
          || ltb maximum (length (joined chunks))
          || request.broken
          || length (joined chunks) == 0
          || has_bom (joined chunks)
        then null
        else value_of decode (decode (joined chunks)))
unfolding read_small_json decode_body
read_small_json_lem decode maximum request chunks e =
    rw e (ground (arith, read_body_lem decode maximum request.broken chunks))

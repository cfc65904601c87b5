-- ===== src/Pairing/Http.antt =====
-- api/app-pairing-http.js: reading a small JSON body. A stream is the list of its chunks, and
-- says whether it fails after them.
pub mod Chunks
use autoform_panel.Js.Text.{trim, is_digit, codes}
use autoform_panel.Js.Value.{null, Value}
use autoform_panel.Prelude.{
  ℕ, zero, suc, ◌+◌, ◌-◌, ◌*◌, code, String, Bool, true, false, not, ◌&&◌, Option, none, some, List,
  [], ◌∷◌, map, ltb, leb, ◌==◌, if◌then◌else◌, length, all,
}

pub record Incoming : Type 0 where
  pub content_type : Option String
  pub content_length : Option String
  pub chunks : Option (List (List ℕ))
  pub broken : Bool

-- `raw.split(";", 1)[0]`
unfoldable pub upto_semicolon : String → String
upto_semicolon String.[] = ""
upto_semicolon (String.◌∷◌ c s) = if code c == 59 then "" else String.◌∷◌ c (upto_semicolon s)

abbrev lower : ℕ → ℕ
lower c = if leb 65 c && leb c 90 then c + 32 else c

abbrev same_codes : List ℕ → List ℕ → Bool
same_codes [] [] = true
same_codes (c ∷ cs) (d ∷ ds) = c == d && same_codes cs ds
same_codes _ _ = false

-- `toLowerCase() === "application/json"`; no other character becomes one of these letters.
unfoldable pub json_content_type : Option String → Bool
json_content_type none = false
json_content_type (some raw) =
    same_codes (map lower (codes (trim (upto_semicolon raw)))) (codes "application/json")

abbrev decimal : ℕ → List ℕ → ℕ
decimal n [] = n
decimal n (c ∷ cs) = decimal (n * 10 + (c - 48)) cs

-- /^(?:0|[1-9][0-9]*)$/u
unfoldable pub is_numeral : List ℕ → Bool
is_numeral [] = false
is_numeral (c ∷ []) = is_digit c
is_numeral (c ∷ d ∷ cs) = leb 49 c && leb c 57 && all is_digit (d ∷ cs)

-- The tests of the Content-Length header: absent, or a numeral that does not pass the maximum.
unfoldable pub length_allowed : ℕ → Option String → Bool
length_allowed maximum none = true
length_allowed maximum (some declared) =
    is_numeral (codes declared) && leb (decimal 0 (codes declared)) maximum

-- The loop over the reader: the chunks read and their length, or `none` where they are too long.
unfoldable pub read_chunks : ℕ → ℕ → List (List ℕ) → Option ℕ
read_chunks maximum read [] = some read
read_chunks maximum read (chunk ∷ more) =
    if ltb maximum (read + length chunk)
    then none
    else read_chunks maximum (read + length chunk) more

abbrev pub overwrite : List ℕ → List ℕ → List ℕ
overwrite bytes [] = bytes
overwrite [] (c ∷ cs) = []
overwrite (b ∷ bytes) (c ∷ cs) = c ∷ overwrite bytes cs

-- `bytes.set(chunk, offset)`
abbrev pub set_at : List ℕ → ℕ → List ℕ → List ℕ
set_at bytes zero chunk = overwrite bytes chunk
set_at [] (suc offset) chunk = []
set_at (b ∷ bytes) (suc offset) chunk = b ∷ set_at bytes offset chunk

unfoldable pub copy_chunks : List ℕ → ℕ → List (List ℕ) → List ℕ
copy_chunks bytes offset [] = bytes
copy_chunks bytes offset (chunk ∷ more) =
    copy_chunks (set_at bytes offset chunk) (offset + length chunk) more

abbrev pub zeros : ℕ → List ℕ
zeros zero = []
zeros (suc n) = 0 ∷ zeros n

unfoldable pub has_bom : List ℕ → Bool
has_bom (a ∷ b ∷ c ∷ bytes) = a == 0xef && b == 0xbb && c == 0xbf
has_bom _ = false

-- `decode` is the fatal UTF-8 decoder and JSON.parse of the host; `none` is what throws.
module _ (decode : List ℕ → Option Value) where
  abbrev value_of : Option Value → Value
  value_of none = null
  value_of (some v) = v

  decode_body : List ℕ → Value
  decode_body bytes = if has_bom bytes then null else value_of (decode bytes)

  read_body : ℕ → Bool → List (List ℕ) → Value
  unfolding decode_body
  read_body maximum broken chunks = elim (read_chunks maximum 0 chunks) [
    | none ↦ null
    | some total ↦
        if broken
        then null
        else if total == 0
        then null
        else decode_body (copy_chunks (zeros total) 0 chunks)
  ]

  -- `readSmallJson`; null stands for every refusal.
  unfoldable pub read_small_json : ℕ → Incoming → Value
  unfolding read_body
  read_small_json maximum request =
      if not (json_content_type request.content_type)
      then null
      else if not (length_allowed maximum request.content_length)
      then null
      else elim request.chunks [
        | none ↦ null
        | some chunks ↦ read_body maximum request.broken chunks
      ]

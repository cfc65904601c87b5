-- ===== src/Js/Text.antt =====
-- JavaScript strings: length in UTF-16 units, trimming, decimal numerals, and the pieces of the
-- regular expressions that the panel tests.
use Prim.Native.String
use autoform_panel.Prelude.{
  ◌-◌, ℕ, zero, suc, ◌+◌, ◌/◌, ◌%◌, Char, code, String, Bool, ◌&&◌, ◌||◌, List, [], ◌≡◌, refl, ◌∷◌,
  leb, ltb, ◌==◌, all, length, if◌then◌else◌,
}

-- The code points of a text.
abbrev pub codes : String → List ℕ
codes String.[] = []
codes (String.◌∷◌ c s) = code c ∷ codes s

-- `value.length`: a code point above the basic plane counts as two units.
abbrev pub units : List ℕ → ℕ
units [] = 0
units (c ∷ cs) = (if ltb c 65536 then 1 else 2) + units cs

abbrev pub utf16_length : String → ℕ
utf16_length s = units (codes s)

-- White space and line ends as `String.prototype.trim` reads them.
abbrev pub is_space : ℕ → Bool
is_space c =
    (leb 9 c && leb c 13)
    || c == 32
    || c == 160
    || c == 5760
    || (leb 8192 c && leb c 8202)
    || c == 8232
    || c == 8233
    || c == 8239
    || c == 8287
    || c == 12288
    || c == 65279

unfoldable pub trim_start : String → String
trim_start String.[] = ""
trim_start (String.◌∷◌ c s) = if is_space (code c) then trim_start s else String.◌∷◌ c s

abbrev push_front : Char → String → String
push_front c String.[] = if is_space (code c) then "" else String.◌∷◌ c ""
push_front c (String.◌∷◌ d t) = String.◌∷◌ c (String.◌∷◌ d t)

-- The text without the white space at its end.
unfoldable pub trim_end : String → String
trim_end String.[] = ""
trim_end (String.◌∷◌ c s) = push_front c (trim_end s)

-- `value.trim()`
unfoldable pub trim : String → String
unfolding trim_start trim_end
trim s = trim_end (trim_start s)

-- `value.trim() === ""`
unfoldable pub is_blank : String → Bool
is_blank s = all is_space (codes s)

abbrev pub is_digit : ℕ → Bool
is_digit c = leb 48 c && leb c 57

abbrev pub is_letter : ℕ → Bool
is_letter c = (leb 65 c && leb c 90) || (leb 97 c && leb c 122)

-- [A-Za-z0-9_]
abbrev pub is_word : ℕ → Bool
is_word c = is_letter c || is_digit c || c == 95

-- [0-9a-f]
abbrev pub is_hex : ℕ → Bool
is_hex c = is_digit c || (leb 97 c && leb c 102)

-- /^[0-9a-f]{64}$/u
unfoldable pub is_sha256 : String → Bool
is_sha256 s = let cs = codes s in length cs == 64 && all is_hex cs

digit : ℕ → String
digit d =
    if d == 0
    then "0"
    else if d == 1
    then "1"
    else if d == 2
    then "2"
    else if d == 3
    then "3"
    else if d == 4
    then "4"
    else if d == 5
    then "5"
    else if d == 6
    then "6"
    else if d == 7
    then "7"
    else if d == 8
    then "8"
    else "9"

-- The digits of `n` before `rest`; a number below 2 ^ fuel has fewer digits than `fuel`.
digits : ℕ → ℕ → String → String
digits zero n rest = rest
digits (suc fuel) n rest =
    let front = digits fuel (n / 10) (String.◌++◌ (digit (n % 10)) rest) in
    if ltb n 10 then String.◌++◌ (digit n) rest else front

-- The decimal numeral of an array index, as a template literal prints it.
unfoldable pub numeral : ℕ → String
unfolding digits digit
numeral n = digits 64 n ""

numeral_test : numeral 2048 ≡ "2048"
unfolding numeral
numeral_test = refl

trim_test : trim " a b\t" ≡ "a b"
unfolding trim
trim_test = refl

-- `value.slice(0, limit)`, where no pair of units is cut.
unfoldable pub slice_units : ℕ → String → String
slice_units limit String.[] = ""
slice_units limit (String.◌∷◌ c s) =
    let width : ℕ = if ltb (code c) 65536 then 1 else 2 in
    if ltb limit width then "" else String.◌∷◌ c (slice_units (limit - width) s)

-- `text.split(".")`
abbrev to_front : Char → List String → List String
to_front c [] = String.◌∷◌ c "" ∷ []
to_front c (s ∷ ss) = String.◌∷◌ c s ∷ ss

unfoldable pub split_dots : String → List String
split_dots String.[] = "" ∷ []
split_dots (String.◌∷◌ c s) =
    let rest = split_dots s in if code c == 46 then "" ∷ rest else to_front c rest

-- ===== src/Pairing/Crypto.antt =====
-- api/app-pairing-crypto.js: the secrets and settings of the pairing, and the text of a ticket.
pub mod Settings
use autoform_panel.Pairing.Messages.{is_app_id}
use autoform_panel.Pairing.Constants.{max_ttl_seconds}
use autoform_panel.Js.Value.{contains}
use autoform_panel.Js.Text.{utf16_length, trim, is_letter, is_digit, codes}
use autoform_panel.Prelude.{
  ℕ, zero, suc, ◌+◌, ◌-◌, ◌*◌, ◌/◌, ◌%◌, Char, code, String, ◌≡◌, refl, Bool, true, false, not,
  ◌&&◌, ◌||◌, Option, none, some, List, [], ◌∷◌, map, str_eq, ltb, leb, ◌==◌, if◌then◌else◌, length,
  all, any,
}

-- ACCESS_KEY_RE, /^[A-Za-z0-9._~+/-]+={0,2}$/u: how many characters and equals signs so far.
abbrev key_char : ℕ → Bool
key_char c =
    is_letter c || is_digit c || c == 46 || c == 95 || c == 126 || c == 43 || c == 47 || c == 45

abbrev key_padding : ℕ → List ℕ → Bool
key_padding n [] = leb n 2
key_padding n (c ∷ cs) = c == 61 && key_padding (n + 1) cs

abbrev key_rest : List ℕ → Bool
key_rest [] = true
key_rest (c ∷ cs) = if key_char c then key_rest cs else key_padding 0 (c ∷ cs)

abbrev key_pattern : List ℕ → Bool
key_pattern [] = false
key_pattern (c ∷ cs) = key_char c && key_rest cs

-- validAccessKey
unfoldable pub valid_access_key : Option String → Bool
valid_access_key none = false
valid_access_key (some value) =
    leb 1 (utf16_length value) && leb (utf16_length value) 4096 && key_pattern (codes value)

-- validIssuerSecret; the pattern is a control character or a space.
unfoldable pub valid_issuer_secret : Option String → Bool
valid_issuer_secret none = false
valid_issuer_secret (some value) =
    leb 32 (utf16_length value)
    && leb (utf16_length value) 4096
    && str_eq value (trim value)
    && not (any (λ c. leb c 32 || c == 127) (codes value))

-- `text.split(",")`: the first part, and the later ones.
abbrev push_first : Char → List String → List String
push_first c [] = String.◌∷◌ c "" ∷ []
push_first c (part ∷ parts) = String.◌∷◌ c part ∷ parts

unfoldable pub split_commas : String → List String
split_commas String.[] = "" ∷ []
split_commas (String.◌∷◌ c s) =
    let parts = split_commas s in if code c == 44 then "" ∷ parts else push_first c parts

abbrev pub distinct : List String → Bool
distinct [] = true
distinct (s ∷ ss) = not (contains ss s) && distinct ss

-- allowedApplicationIds
unfoldable pub allowed_application_ids : Option String → Option (List String)
allowed_application_ids none = none
allowed_application_ids (some setting) =
    let raw = split_commas setting in
    let values = map trim raw in
    if ltb (length raw) 1 || ltb 16 (length raw)
    then none
    else if any (λ v. str_eq v "" || ltb 255 (utf16_length v) || not (is_app_id v)) values
        || not (distinct values)
    then none
    else some values

abbrev numeral_value : ℕ → List ℕ → ℕ
numeral_value n [] = n
numeral_value n (c ∷ cs) = numeral_value (n * 10 + (c - 48)) cs

-- /^[1-9][0-9]{0,2}$/u
abbrev ttl_pattern : List ℕ → Bool
ttl_pattern [] = false
ttl_pattern (c ∷ cs) = leb 49 c && leb c 57 && all is_digit cs && leb (length cs) 2

abbrev ttl_of : List ℕ → Option ℕ
ttl_of cs =
    let ttl = numeral_value 0 cs in
    if not (ttl_pattern cs)
    then none
    else if leb 60 ttl && leb ttl max_ttl_seconds
    then some ttl
    else none

-- ticketTtlSeconds; the default is 300.
unfoldable pub ticket_ttl_seconds : Option String → Option ℕ
ticket_ttl_seconds none = ttl_of (codes "300")
ticket_ttl_seconds (some raw) = ttl_of (codes raw)

-- The 64 characters of `bytesToBase64Url`.
abbrev pub alphabet : String
alphabet = "ABCDEFGHIJKLMNOPQRSTUVWXYZabcdefghijklmnopqrstuvwxyz0123456789-_"

-- `alphabet[index] + rest`
abbrev pub letter_from : String → ℕ → String → String
letter_from String.[] index rest = rest
letter_from (String.◌∷◌ c s) zero rest = String.◌∷◌ c rest
letter_from (String.◌∷◌ c s) (suc index) rest = letter_from s index rest

abbrev pub letter : ℕ → String → String
letter index rest = letter_from alphabet index rest

-- The loop over groups of three bytes; `value >>> 18 & 63` and the like are written out.
unfoldable pub bytes_to_base64_url : List ℕ → String
bytes_to_base64_url [] = ""
bytes_to_base64_url (a ∷ []) =
    let value = a * 65536 in letter (value / 262144 % 64) (letter (value / 4096 % 64) "")
bytes_to_base64_url (a ∷ b ∷ []) =
    let value = a * 65536 + b * 256 in
    letter (value / 262144 % 64) (letter (value / 4096 % 64) (letter (value / 64 % 64) ""))
bytes_to_base64_url (a ∷ b ∷ c ∷ bytes) =
    let value = a * 65536 + b * 256 + c in
    letter (value / 262144 % 64) (
      letter (value / 4096 % 64)
        (letter (value / 64 % 64) (letter (value % 64) (bytes_to_base64_url bytes))))

encode_test : bytes_to_base64_url (0 ∷ 255 ∷ 16 ∷ 250 ∷ []) ≡ "AP8Q-g"
unfolding bytes_to_base64_url
encode_test = refl

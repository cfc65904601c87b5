-- ===== src/Notification/Templates.antt =====
-- controlledTemplateTokens of api/notification-adapter-templates.js: the tokens of a message
-- template, and its errors.
pub mod Split
pub mod Quiet
pub mod Termination
pub mod Print
pub mod Paths
use autoform_panel.Stats.{glue}
use autoform_panel.Js.Value.{contains}
use autoform_panel.Js.Text.{numeral, is_digit, utf16_length, is_letter, codes}
use autoform_panel.Prelude.{
  ℕ, zero, suc, ◌+◌, Char, code, String, Bool, true, false, not, ◌&&◌, ◌||◌, Option, none, some,
  List, [], ◌∷◌, ◌++◌, str_eq, ltb, leb, ◌==◌, if◌then◌else◌, length, all,
}

-- The kinds of token; a text and a name are kept as they stand in the template.
pub data Token : Type 0 where
  text : String → Token
  placeholder : (field : String) → Token
  if_start : (field : String) → Token
  if_end : Token

-- The options of a call.
pub record Allowed : Type 0 where
  pub placeholders : List String
  pub conditionals : List String
  pub allow_conditionals : Bool
  pub max_depth : ℕ

-- The variables of the loop, without its cursor.
pub record Scan : Type 0 where
  pub tokens : List Token
  pub errors : List String
  pub depth : ℕ
  pub reported : Bool

abbrev pub brace_open : Char
brace_open = "{"

abbrev pub brace_close : Char
brace_close = "}"

abbrev pub after_char : Char → Option (String × String) → Option (String × String)
after_char c none = none
after_char c (some (before, after)) = some (String.◌∷◌ c before, after)

-- The text before the first pair of a brace, and the text after the pair.
unfoldable pub split_pair : Char → String → Option (String × String)
split_pair q String.[] = none
split_pair q (String.◌∷◌ c String.[]) = none
split_pair q (String.◌∷◌ c (String.◌∷◌ d s)) =
    if code c == code q && code d == code q
    then some ("", s)
    else after_char c (split_pair q (String.◌∷◌ d s))

-- The text after a prefix.
unfoldable pub after_prefix : String → String → Option String
after_prefix String.[] s = some s
after_prefix (String.◌∷◌ p ps) String.[] = none
after_prefix (String.◌∷◌ p ps) (String.◌∷◌ c s) =
    if code p == code c then after_prefix ps s else none

abbrev key_codes : List ℕ → Bool
key_codes [] = false
key_codes (c ∷ cs) =
    is_letter c && all (λ (d : ℕ). is_letter d || is_digit d) cs && leb (length cs) 63

-- DATA_KEY_PATTERN, /^[A-Za-z][A-Za-z0-9]{0,63}$/
unfoldable pub is_data_key : String → Bool
is_data_key s = key_codes (codes s)

abbrev pub keyed : Option String → Option String
keyed none = none
keyed (some field) = if is_data_key field then some field else none

-- /^#if ([A-Za-z][A-Za-z0-9]{0,63})$/, as its group
unfoldable pub conditional_field : String → Option String
conditional_field raw = keyed (after_prefix "#if " raw)

-- What the text from the cursor on begins with.
pub data Piece : Type 0 where
  stray_close : (after : String) → Piece
  only_text : Piece
  unterminated : (before : String) → Piece
  block : (before raw after : String) → Piece

abbrev pub closed_block : String → Option (String × String) → Piece
closed_block before none = unterminated before
closed_block before (some (raw, after)) = block before raw after

abbrev pub first_brace : Option (String × String) → Option (String × String) → Piece
first_brace none none = only_text
first_brace none (some (before, after)) = stray_close after
first_brace (some (before, after)) none = closed_block before (split_pair brace_close after)
first_brace (some (before, after)) (some (inside, rest)) =
    if ltb (utf16_length inside) (utf16_length before)
    then stray_close rest
    else closed_block before (split_pair brace_close after)

unfoldable pub piece : String → Piece
piece rest = first_brace (split_pair brace_open rest) (split_pair brace_close rest)

abbrev pub push : Token → Scan → Scan
push t s = record s { tokens = s.tokens ++ (t ∷ []) }

abbrev pub fault : List String → Scan → Scan
fault parts s = record s { errors = s.errors ++ (glue parts ∷ []) }

abbrev pub fault_unless : Bool → List String → Scan → Scan
fault_unless test parts s = if test then s else fault parts s

abbrev pub leave_block : String → ℕ → Scan → Scan
leave_block path zero s = fault (path ∷ " contains {{/if}} without a matching {{#if field}}" ∷ []) s
leave_block path (suc depth) s = record s { depth = depth }

abbrev pub enter_block : Allowed → String → String → Option String → Scan → Scan
enter_block a path raw none s =
    fault (path ∷ " uses invalid conditional token {{" ∷ raw ∷ "}}" ∷ []) s
enter_block a path raw (some field) s =
    let known =
      fault_unless (contains a.conditionals field)
        (path ∷ " uses unsupported conditional field " ∷ field ∷ []) s in
    push (if_start field) (
      fault_unless (leb (s.depth + 1) a.max_depth)
        (path ∷ " conditional blocks must not exceed " ∷ numeral a.max_depth ∷ " levels" ∷ [])
        (record known { depth = s.depth + 1 }))

abbrev no_conditionals : String → Scan → Scan
no_conditionals path s = fault (path ∷ " does not support conditional blocks" ∷ []) s

abbrev pub is_some : Option String → Bool
is_some none = false
is_some (some s) = true

-- The token of one pair of braces.
unfoldable pub block_token : Allowed → String → String → Scan → Scan
block_token a path raw s =
    if str_eq raw "/if"
    then push if_end
        (if not a.allow_conditionals then no_conditionals path s else leave_block path s.depth s)
    else if is_some (after_prefix "#if" raw)
    then (if not a.allow_conditionals
        then no_conditionals path s
        else enter_block a path raw (conditional_field raw) s)
    else push (placeholder raw) (
        if not (is_data_key raw) && not (str_eq raw "type")
        then fault (path ∷ " uses invalid placeholder {{" ∷ raw ∷ "}}" ∷ []) s
        else fault_unless (contains a.placeholders raw)
            (path ∷ " uses unsupported placeholder {{" ∷ raw ∷ "}}" ∷ []) s)

abbrev pub max_tokens : ℕ
max_tokens = 128

-- `tokens.length > MAX_MESSAGE_TEMPLATE_TOKENS && !tokenLimitReported`
abbrev pub check_limit : String → Scan → Scan
check_limit path s =
    if ltb max_tokens (length s.tokens) && not s.reported
    then record (fault (path ∷ " must not contain more than 128 template tokens" ∷ []) s) {
      reported = true;
    }
    else s

abbrev pub push_text : String → Scan → Scan
push_text String.[] s = s
push_text (String.◌∷◌ c t) s = push (text (String.◌∷◌ c t)) s

-- The loop over the text from the cursor on; none when the fuel is used up.
unfoldable pub token_loop : ℕ → Allowed → String → String → Scan → Option Scan
token_loop zero a path rest s = none
token_loop (suc fuel) a path String.[] s = some s
token_loop (suc fuel) a path (String.◌∷◌ c rest) s = elim (piece (String.◌∷◌ c rest)) [
  | stray_close after ↦
      token_loop fuel a path after (fault (path ∷ " contains an unexpected }} token" ∷ []) s)
  | only_text ↦ some (push (text (String.◌∷◌ c rest)) s)
  | unterminated before ↦
      some (fault (path ∷ " contains an unterminated {{ token" ∷ []) (push_text before s))
  | block before raw after ↦
      token_loop fuel a path after (check_limit path (block_token a path raw (push_text before s)))
]

abbrev pub start : Scan
start = record { tokens = []; errors = []; depth = 0; reported = false }

abbrev pub finish : String → Option Scan → Scan
finish path none = start
finish path (some s) =
    fault_unless (s.depth == 0) (path ∷ " contains an unclosed {{#if field}} block" ∷ []) s

-- controlledTemplateTokens; one round for each character, and one more, is enough.
unfoldable pub controlled_template_tokens : Allowed → String → String → Scan
controlled_template_tokens a path template =
    finish path (token_loop (suc (length (codes template))) a path template start)

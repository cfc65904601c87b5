-- ===== src/Profile/Choices.antt =====
-- api/profile-choice-fields.js: the options of a choice, and the values that it may submit.
pub mod Offered
use autoform_panel.Js.Text.{trim}
use autoform_panel.Profile.{require_string, json_equal}
use autoform_panel.Stats.{is_empty, at_field, is_true, unless, indexed, among}
use autoform_panel.Js.Value.{
  frac, int, num, undefined, items, get, str, is_str, is_plain_object, has_own, bool, arr, Value,
}
use autoform_panel.Prelude.{
  ℕ, suc, String, Bool, true, false, not, ◌&&◌, List, [], ◌∷◌, ◌++◌, str_eq, if◌then◌else◌,
}

-- isChoiceOptionValue
abbrev pub is_option_value : Value → Bool
is_option_value (str s) = not (str_eq (trim s) "")
is_option_value (bool b) = true
is_option_value (num (int z)) = true
is_option_value (num (frac s)) = true
is_option_value _ = false

-- `optionValues.some((candidate) => jsonValuesEqual(candidate, value))`
abbrev pub is_option : List Value → Value → Bool
is_option options v = among json_equal options v

abbrev pub option_value : Value → String → List Value → List String × List Value
option_value option path seen =
    if not (has_own option "value")
    then (unless false (path ∷ ".value is required" ∷ []), seen)
    else if not (is_option_value (get option "value"))
    then (unless false (path ∷ ".value must be a non-empty JSON scalar" ∷ []), seen)
    else (
      unless (not (is_option seen (get option "value"))) (path ∷ ".value must be unique" ∷ []),
      get option "value" ∷ seen,
    )

-- The body of the loop over `choice.options`; the values are kept with the last one first.
abbrev pub check_option : Value → String → List Value → List String × List Value
check_option option path seen =
    if not (is_plain_object option)
    then (unless false (path ∷ " must be an object" ∷ []), seen)
    else let (errors, after) = option_value option path seen in
      (errors ++ require_string (get option "label") (at_field path "label"), after)

abbrev pub check_options : String → ℕ → List Value → List Value → List String × List Value
check_options path i [] seen = ([], seen)
check_options path i (option ∷ options) seen =
    let (errors, after) = check_option option (indexed path i) seen in
    let (more, last) = check_options path (suc i) options after in (errors ++ more, last)

abbrev pub choice_options : Value → String → List String × List Value
choice_options (arr vs) path =
    let (errors, last) = check_options path 0 (items vs) [] in
    (unless (not (is_empty (items vs))) (path ∷ " must not be empty" ∷ []) ++ errors, last)
choice_options _ path = (unless false (path ∷ " must be an array" ∷ []), [])

abbrev flag_error : Value → String → List String
flag_error undefined path = []
flag_error (bool b) path = []
flag_error _ path = unless false (path ∷ " must be a boolean" ∷ [])

abbrev review_error : Value → String → List String
review_error undefined path = []
review_error (bool b) path = unless (not b) (path ∷ " must be false before publish" ∷ [])
review_error _ path = unless false (path ∷ " must be a boolean" ∷ [])

-- `quote` is JSON.stringify of a value.
module _ (quote : Value → String) where
  abbrev pub undeclared : List Value → String → Value → List String
  undeclared options path v =
      unless (is_option options v) (path ∷ ".value " ∷ quote v ∷ " is not one of its options" ∷ [])

  abbrev pub each_declared : List Value → String → List Value → List String
  each_declared options path [] = []
  each_declared options path (v ∷ vs) = undeclared options path v ++ each_declared options path vs

  abbrev nothing_selected : String → List String
  nothing_selected path = unless false (path ∷ " is required but nothing is selected" ∷ [])

  abbrev pub multi_value : List Value → Value → Value → String → List String
  multi_value options (arr vs) required path =
      each_declared options path (items vs)
      ++ (if is_true required && is_empty (items vs) then nothing_selected path else [])
  multi_value options _ required path =
      unless false (path ∷ ".value must be an array for a multi choice" ∷ [])

  abbrev pub single_value : List Value → Value → Value → String → List String
  single_value options (str s) required path =
      if str_eq s ""
      then (if is_true required then nothing_selected path else [])
      else undeclared options path (str s)
  single_value options _ required path =
      unless false (path ∷ ".value must be a string for a single choice" ∷ [])

  abbrev pub choice_value : Value → List Value → String → List String
  choice_value choice options path =
      if is_str (get choice "kind") "multi"
      then multi_value options (get choice "value") (get choice "required") path
      else if is_str (get choice "kind") "single"
      then single_value options (get choice "value") (get choice "required") path
      else unless false (path ∷ ".kind must be \"single\" or \"multi\"" ∷ [])

  -- The body of the loop over `value`.
  unfoldable pub check_choice : String → Value → List String
  check_choice path choice =
      if not (is_plain_object choice)
      then unless false (path ∷ " must be an object" ∷ [])
      else let (option_errors, options) =
          choice_options (get choice "options") (at_field path "options") in
        require_string (get choice "field") (at_field path "field")
        ++ flag_error (get choice "required") (at_field path "required")
        ++ flag_error (get choice "visible") (at_field path "visible")
        ++ review_error (get choice "reviewRequired") (at_field path "reviewRequired")
        ++ option_errors
        ++ choice_value choice options path

  abbrev check_choices : ℕ → List Value → List String
  check_choices i [] = []
  check_choices i (choice ∷ choices) =
      check_choice (indexed "choiceFields" i) choice ++ check_choices (suc i) choices

  -- validateChoiceFields
  unfoldable pub validate_choice_fields : Value → List String
  validate_choice_fields undefined = []
  validate_choice_fields (arr vs) = check_choices 0 (items vs)
  validate_choice_fields _ = "choiceFields must be an array" ∷ []

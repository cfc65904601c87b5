-- ===== src/Backend/Outcome.antt =====
-- api/backend-adapter-outcome-policy.js: what a backend's answers to a submission may mean.
use autoform_panel.Backend.Checks.{unique_strings, unique_business_values}
use autoform_panel.Js.Text.{utf16_length, trim, is_sha256, is_blank}
use autoform_panel.Stats.{at_field, elements, is_empty, indexed}
use autoform_panel.Backend.{unless, allow_names}
use autoform_panel.Notification.Templates.{after_prefix, is_some}
use autoform_panel.Js.Value.{
  undefined, is_undefined, is_nat, lookup, items, field_names, str, obj, get, contains, arr, Value,
  Properties,
}
use autoform_panel.Prelude.{
  ℕ, ◌+◌, String, Bool, true, false, not, ◌||◌, Option, none, some, List, [], ◌∷◌, ◌++◌, str_eq,
  leb, if◌then◌else◌,
}

abbrev has_items : Value → Bool
has_items v = not (is_empty (elements v))

-- The body of the loop of validateOutcomeRules.
unfoldable pub outcome_rule : Value → String → List String
outcome_rule (obj fs) path =
    let codes = lookup "codeValues" fs in
    let messages = lookup "messagePatterns" fs in
    allow_names path ("codeValues" ∷ "messagePatterns" ∷ []) (field_names fs)
    ++ unique_business_values true codes (at_field path "codeValues")
    ++ unique_strings true messages (at_field path "messagePatterns")
    ++ unless (has_items codes || has_items messages)
        (path ∷ " must configure at least one code value or message pattern" ∷ [])
outcome_rule _ path = unless false (path ∷ " must be an object" ∷ [])

abbrev outcome_rules_from : String → List Value → ℕ → List String
outcome_rules_from path [] n = []
outcome_rules_from path (v ∷ vs) n =
    outcome_rule v (indexed path n) ++ outcome_rules_from path vs (n + 1)

-- validateOutcomeRules
unfoldable pub outcome_rules : Value → String → List String
outcome_rules (arr vs) path = outcome_rules_from path (items vs) 0
outcome_rules _ path = unless false (path ∷ " must be an array" ∷ [])

abbrev is_digest : Value → Bool
is_digest (str s) = is_sha256 s
is_digest _ = false

-- The checks that the two policies share; `second` is the second list of rules.
abbrev policy_fields : String → String → Properties → List String
policy_fields path second fs =
    allow_names path ("version" ∷ "evidenceSha256" ∷ "retryableNotWrittenRules" ∷ second ∷ [])
      (field_names fs)
    ++ unless (is_nat (lookup "version" fs) 1) (path ∷ ".version must be 1" ∷ [])
    ++ unless (is_digest (lookup "evidenceSha256" fs))
        (path ∷ ".evidenceSha256 must be lowercase SHA-256" ∷ [])
    ++ outcome_rules (lookup "retryableNotWrittenRules" fs)
        (at_field path "retryableNotWrittenRules")
    ++ outcome_rules (lookup second fs) (at_field path second)

abbrev outcome_policy : String → String → Value → Bool → List String
outcome_policy path second (obj fs) required = policy_fields path second fs
outcome_policy path second policy required =
    if required
    then unless false (path ∷ " must be configured" ∷ [])
    else unless (is_undefined policy) (path ∷ " must be an object" ∷ [])

abbrev submit_path : String
submit_path = "operations.submit.outcomePolicy"

abbrev recipe_path : String
recipe_path = "operations.previousSteps.recipeOutcomePolicy"

-- validateSubmitOutcomePolicy
unfoldable pub validate_submit_outcome_policy : Value → Bool → List String
validate_submit_outcome_policy operation required =
    outcome_policy submit_path "missingMaterialNotWrittenRules" (get operation "outcomePolicy")
      required

-- validatePreviousStepRecipeOutcomePolicy
unfoldable pub validate_previous_step_recipe_outcome_policy : Value → Bool → List String
validate_previous_step_recipe_outcome_policy operation required =
    outcome_policy recipe_path "alreadyExistsAcknowledgedRules"
      (get operation "recipeOutcomePolicy") required

-- The lists of rules that a caller asks for.
abbrev required_rules : String → String → Value → Bool → Bool → List String
required_rules path second (obj fs) retry other =
    unless (not retry || has_items (lookup "retryableNotWrittenRules" fs))
      (path ∷ ".retryableNotWrittenRules must be non-empty" ∷ [])
    ++ unless (not other || has_items (lookup second fs))
        (path ∷ "." ∷ second ∷ " must be non-empty" ∷ [])
required_rules path second policy retry other = []

abbrev pub operation_of : Value → String → Value
operation_of adapter name = get (get adapter "operations") name

-- validateSubmitOutcomePolicyConfig
unfoldable pub validate_submit_outcome_policy_config :
    Value → (required retry missing_material : Bool) → List String
validate_submit_outcome_policy_config adapter required retry missing_material =
    let operation = operation_of adapter "submit" in
    validate_submit_outcome_policy operation required
    ++ required_rules submit_path "missingMaterialNotWrittenRules" (get operation "outcomePolicy")
        retry missing_material

-- validatePreviousStepRecipeOutcomePolicyConfig
unfoldable pub validate_previous_step_recipe_outcome_policy_config :
    Value → (required retry already_exists : Bool) → List String
validate_previous_step_recipe_outcome_policy_config adapter required retry already_exists =
    let operation = operation_of adapter "previousSteps" in
    validate_previous_step_recipe_outcome_policy operation required
    ++ required_rules recipe_path "alreadyExistsAcknowledgedRules"
        (get operation "recipeOutcomePolicy") retry already_exists

-- validateOptionalOperatorLabel
unfoldable pub optional_operator_label : Value → String → List String
optional_operator_label undefined path = []
optional_operator_label (str s) path =
    if is_blank s
    then unless false (path ∷ " must be a non-empty string" ∷ [])
    else unless (str_eq s (trim s)) (path ∷ " must not have surrounding whitespace" ∷ [])
      ++ unless (leb (utf16_length s) 160) (path ∷ " must contain at most 160 characters" ∷ [])
optional_operator_label _ path = unless false (path ∷ " must be a non-empty string" ∷ [])

abbrev locale_label : Properties → String → String → List String
locale_label fs path locale =
    if contains (field_names fs) locale
    then optional_operator_label (lookup locale fs) (at_field path locale)
    else []

-- validateOptionalOperatorLabelI18n
unfoldable pub optional_operator_label_i18n : Value → String → List String
optional_operator_label_i18n undefined path = []
optional_operator_label_i18n (obj fs) path =
    allow_names path ("en" ∷ "es" ∷ []) (field_names fs)
    ++ locale_label fs path "en"
    ++ locale_label fs path "es"
optional_operator_label_i18n _ path =
    unless false (path ∷ " must be an object with en/es string values" ∷ [])

abbrev ends_with : String → String → Bool
ends_with suffix String.[] = str_eq suffix ""
ends_with suffix (String.◌∷◌ c s) = str_eq suffix (String.◌∷◌ c s) || ends_with suffix s

abbrev is_placeholder_host : Option String → Bool
is_placeholder_host none = false
is_placeholder_host (some host) =
    str_eq host "example.com"
    || ends_with ".example.com" host
    || str_eq host "example.net"
    || ends_with ".example.net" host
    || str_eq host "example.org"
    || ends_with ".example.org" host
    || ends_with ".example.invalid" host
    || is_some (after_prefix "your-" host)

-- placeholderBaseUrl; `host_of` is `new URL(value).hostname.toLowerCase()`, none where it throws.
unfoldable pub placeholder_base_url : (Value → Option String) → Value → Bool
placeholder_base_url host_of v = is_placeholder_host (host_of v)

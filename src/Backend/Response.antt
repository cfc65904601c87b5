-- ===== src/Backend/Response.antt =====
-- api/backend-adapter-previous-step-response.js and api/backend-adapter-recovery.js.
use autoform_panel.Notification.Round.{int_between}
use autoform_panel.Notification.{includes_text}
use autoform_panel.Backend.Checks.{repeated_values, string_array, business_value_array}
use autoform_panel.Backend.{allow_names, text_among}
use autoform_panel.Backend.Outcome.{operation_of}
use autoform_panel.Stats.{indexed, elements, among, unless}
use autoform_panel.Js.Text.{slice_units, is_hex, codes, utf16_length, is_sha256, is_word}
use autoform_panel.Js.Value.{
  is_nat, strict_eq, lookup, items, field_names, get, element, str, obj, is_str, has_own, contains,
  arr, Value,
}
use autoform_panel.Prelude.{
  ℕ, ◌+◌, ◌%◌, String, Bool, true, false, not, ◌&&◌, ◌||◌, List, [], ◌∷◌, ◌++◌, str_eq, leb, ◌==◌,
  if◌then◌else◌, all, any,
}

abbrev unconfigured : Bool → String → List String
unconfigured required path = unless (not required) (path ∷ " must be configured" ∷ [])

-- validatePreviousStepRecipeResponseOperation
unfoldable pub validate_previous_step_recipe_response_operation : Value → Bool → List String
validate_previous_step_recipe_response_operation (obj fs) required =
    string_array true (lookup "retryableMessagePatterns" fs)
      "operations.previousSteps.retryableMessagePatterns"
    ++ string_array true (lookup "alreadyExistsMessagePatterns" fs)
        "operations.previousSteps.alreadyExistsMessagePatterns"
validate_previous_step_recipe_response_operation _ required =
    unconfigured required "operations.previousSteps"

-- validatePreviousStepLookupResponseOperation
unfoldable pub validate_previous_step_lookup_response_operation : Value → Bool → List String
validate_previous_step_lookup_response_operation (obj fs) required =
    business_value_array true (lookup "missingResponseCodes" fs)
      "operations.previousSteps.missingResponseCodes"
    ++ repeated_values "operations.previousSteps.missingResponseCodes"
        (elements (lookup "missingResponseCodes" fs)) 0 []
    ++ string_array true (lookup "missingMessagePatterns" fs)
        "operations.previousSteps.missingMessagePatterns"
validate_previous_step_lookup_response_operation _ required =
    unconfigured required "operations.previousSteps"

-- validatePreviousStepRecipeResponseConfig
unfoldable pub validate_previous_step_recipe_response_config : Value → List String
validate_previous_step_recipe_response_config adapter =
    let operation = operation_of adapter "previousSteps" in
    validate_previous_step_lookup_response_operation operation true
    ++ validate_previous_step_recipe_response_operation operation true

-- validateExistingMaterialQuantityPolicy
unfoldable pub validate_existing_material_quantity_policy : Value → List String
validate_existing_material_quantity_policy detail =
    unless
      (not (has_own detail "existingQuantityPolicy")
        || text_among ("strict_live_match" ∷ "profile_authoritative" ∷ [])
            (get detail "existingQuantityPolicy"))
      ("operations.templateDetail.existingQuantityPolicy must be one of: strict_live_match, profile_authoritative"
        ∷ [])

-- CONTROLLED_RECOVERY_OPERATIONS
abbrev pub recovery_operations : List String
recovery_operations = "FINAL_SUBMISSION" ∷ "PREVIOUS_STEP_RECIPE" ∷ "MULTIPART_UPLOAD" ∷ []

abbrev is_key_id_char : ℕ → Bool
is_key_id_char c = is_word c || c == 46 || c == 45

abbrev is_key_id : Value → Bool
is_key_id (str s) = not (str_eq s "") && leb (utf16_length s) 128 && all is_key_id_char (codes s)
is_key_id _ = false

-- A bounded text of hexadecimal digits with the identifier of RSA keys among the first 256.
abbrev is_public_key : Value → Bool
is_public_key (str s) =
    let n = utf16_length s in
    leb 512 n
    && leb n 8192
    && n % 2 == 0
    && all is_hex (codes s)
    && includes_text "06092a864886f70d010101" (slice_units 256 s)
is_public_key _ = false

abbrev is_digest : Value → Bool
is_digest (str s) = is_sha256 s
is_digest _ = false

abbrev operation_items : String → List Value → ℕ → List Value → List String
operation_items path [] n seen = []
operation_items path (v ∷ vs) n seen =
    (if text_among recovery_operations v
      then unless (not (among strict_eq seen v)) (indexed path n ∷ " must not be duplicated" ∷ [])
      else unless false (
          indexed path n
          ∷ " must be one of: FINAL_SUBMISSION, PREVIOUS_STEP_RECIPE, MULTIPART_UPLOAD"
          ∷ []))
    ++ operation_items path vs (n + 1) (v ∷ seen)

abbrev enabled_operations : Value → List String
enabled_operations (arr (element v vs)) =
    operation_items "operations.recovery.enabledOperations" (v ∷ items vs) 0 []
enabled_operations _ =
    unless false ("operations.recovery.enabledOperations must be a non-empty array" ∷ [])

abbrev recovery_keys : List String
recovery_keys =
    "version" ∷ "issuanceMode" ∷ "evidenceAlgorithm" ∷ "keyId" ∷ "publicKeySpkiHex"
    ∷ "maxEvidenceAgeSeconds" ∷ "reconciliationContractSha256" ∷ "enabledOperations" ∷ []

-- validateControlledRecoveryOperation
unfoldable pub validate_controlled_recovery_operation : Value → Bool → List String
validate_controlled_recovery_operation (obj fs) required =
    allow_names "operations.recovery" recovery_keys (field_names fs)
    ++ unless (is_nat (lookup "version" fs) 1) ("operations.recovery.version must be 1" ∷ [])
    ++ unless (is_str (lookup "issuanceMode" fs) "panel_signed_exact_reconciliation")
        ("operations.recovery.issuanceMode must be panel_signed_exact_reconciliation" ∷ [])
    ++ unless (is_str (lookup "evidenceAlgorithm" fs) "RS256")
        ("operations.recovery.evidenceAlgorithm must be RS256" ∷ [])
    ++ unless (is_key_id (lookup "keyId" fs))
        ("operations.recovery.keyId must be a bounded safe identifier" ∷ [])
    ++ unless (is_public_key (lookup "publicKeySpkiHex" fs))
        ("operations.recovery.publicKeySpkiHex must be a bounded lowercase RSA SPKI DER value" ∷ [])
    ++ unless (int_between 1 3600 (lookup "maxEvidenceAgeSeconds" fs))
        ("operations.recovery.maxEvidenceAgeSeconds must be an integer from 1 to 3600" ∷ [])
    ++ unless (is_digest (lookup "reconciliationContractSha256" fs))
        ("operations.recovery.reconciliationContractSha256 must be lowercase SHA-256" ∷ [])
    ++ enabled_operations (lookup "enabledOperations" fs)
validate_controlled_recovery_operation _ required = unconfigured required "operations.recovery"

abbrev has_text : List Value → String → Bool
has_text vs s = any (λ (v : Value). is_str v s) vs

abbrev required_operations : List Value → List String → List String
required_operations enabled [] = []
required_operations enabled (o ∷ os) =
    (if contains recovery_operations o
      then unless (has_text enabled o)
          ("operations.recovery.enabledOperations must include " ∷ o ∷ [])
      else unless false ("required recovery operation is unknown: " ∷ o ∷ []))
    ++ required_operations enabled os

abbrev recovery_config : Value → Bool → List String → List String
recovery_config (obj fs) required needed =
    validate_controlled_recovery_operation (obj fs) required
    ++ required_operations (elements (lookup "enabledOperations" fs)) needed
recovery_config operation required needed =
    validate_controlled_recovery_operation operation required

-- validateControlledRecoveryConfig; `needed` are the operations that a release ships.
unfoldable pub validate_controlled_recovery_config : Value → Bool → List String → List String
validate_controlled_recovery_config adapter required needed =
    recovery_config (operation_of adapter "recovery") required needed

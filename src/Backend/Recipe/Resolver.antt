-- ===== src/Backend/Recipe/Resolver.antt =====
-- The actions and the resolver of api/backend-adapter-recipe-dsl.js.
pub mod Valid
use autoform_panel.Backend.Recipe.Literal.{literal_errors}
use autoform_panel.Backend.Recipe.{
  selector_references_attribute, recipe_id, is_bool, validate_recipe_selector, recipe_id_errors,
  attribute_array,
}
use autoform_panel.Js.Text.{utf16_length}
use autoform_panel.Backend.Recipe.Builder.{validate_recipe_builder, Budget}
use autoform_panel.Stats.{unless, indexed, at_field}
use autoform_panel.Backend.{◌>>>◌, report, text_among, allow_names, Run}
use autoform_panel.Js.Value.{
  is_nat, lookup, items, get, field_names, element, str, set_field, obj, is_str, contains, arr,
  Value, Properties,
}
use autoform_panel.Prelude.{
  ℕ, zero, suc, ◌+◌, String, Bool, false, not, ◌&&◌, ◌||◌, none, some, List, [], ◌∷◌, ◌++◌, leb,
  ◌==◌, if◌then◌else◌, length,
}
use Prim.Native.String

abbrev pub cardinality_errors : Value → String → List String
cardinality_errors v path =
    unless (text_among ("exactly_one" ∷ "first_in_backend_order" ∷ []) v)
      (path ∷ ".cardinality must be one of: exactly_one, first_in_backend_order" ∷ [])

abbrev override_errors : Properties → String → List String
override_errors fs path =
    if contains (field_names fs) "literalOverride"
    then literal_errors (lookup "literalOverride" fs) (at_field path "literalOverride")
    else []

-- validateOptionSelector
unfoldable pub validate_option_selector : Value → String → List String
validate_option_selector (obj fs) path =
    allow_names path ("selector" ∷ "cardinality" ∷ "literalOverride" ∷ []) (field_names fs)
    ++ validate_recipe_selector none (lookup "selector" fs) (at_field path "selector")
    ++ cardinality_errors (lookup "cardinality" fs) path
    ++ override_errors fs path
validate_option_selector _ path = unless false (path ∷ " must be an object" ∷ [])

abbrev option_selectors_from : String → ℕ → List Value → ℕ → List String
option_selectors_from path left [] n = []
option_selectors_from path zero (v ∷ vs) n = []
option_selectors_from path (suc left) (v ∷ vs) n =
    validate_option_selector v (indexed path n) ++ option_selectors_from path left vs (n + 1)

abbrev option_selectors : String → Value → List String
option_selectors path (arr (element v vs)) =
    unless (leb (length (v ∷ items vs)) 16) (path ∷ " must contain at most 16 items" ∷ [])
    ++ option_selectors_from path 16 (v ∷ items vs) 0
option_selectors path _ = unless false (path ∷ " must be a non-empty array" ∷ [])

abbrev join_errors : Value → String → List String
join_errors (str s) path =
    unless (leb (utf16_length s) 4096)
      (path ∷ ".joinWith must be a string of at most 4096 characters" ∷ [])
join_errors _ path =
    unless false (path ∷ ".joinWith must be a string of at most 4096 characters" ∷ [])

abbrev pub fixed_option : List String → String → Properties → List String
fixed_option builder_ids path fs =
    allow_names path ("type" ∷ "optionSelectors" ∷ "valueBuilder" ∷ "onNoMatch" ∷ [])
      (field_names fs)
    ++ option_selectors (at_field path "optionSelectors") (lookup "optionSelectors" fs)
    ++ recipe_id_errors (lookup "valueBuilder" fs) (at_field path "valueBuilder")
    ++ unless
        (not (recipe_id (lookup "valueBuilder" fs))
          || text_among builder_ids (lookup "valueBuilder" fs))
        (path ∷ ".valueBuilder must reference operations.previousSteps.optionValueBuilders" ∷ [])
    ++ unless (text_among ("reject" ∷ "use_value_builder" ∷ []) (lookup "onNoMatch" fs))
        (path ∷ ".onNoMatch must be one of: reject, use_value_builder" ∷ [])

-- validateRecipeAction
unfoldable pub validate_recipe_action : List String → Value → String → List String
validate_recipe_action builder_ids (obj fs) path =
    let type = lookup "type" fs in
    if is_str type "serial"
    then allow_names path ("type" ∷ []) (field_names fs)
    else if is_str type "photo"
    then allow_names path ("type" ∷ "source" ∷ "joinWith" ∷ []) (field_names fs)
      ++ recipe_id_errors (lookup "source" fs) (at_field path "source")
      ++ join_errors (lookup "joinWith" fs) path
    else if is_str type "omit"
    then allow_names path ("type" ∷ "allowRequired" ∷ []) (field_names fs)
      ++ unless (is_bool (lookup "allowRequired" fs))
          (path ∷ ".allowRequired must be a boolean" ∷ [])
    else if is_str type "fixedOption"
    then fixed_option builder_ids path fs
    else unless false (path ∷ ".type must be one of: serial, photo, fixedOption, omit" ∷ [])
validate_recipe_action builder_ids _ path = unless false (path ∷ " must be an object" ∷ [])

abbrev identity_keys : List String
identity_keys = "templateId" ∷ "expectedStep" ∷ "warehouseId" ∷ "sku" ∷ []

module _ (path : String) (identity : Properties) where
  abbrev identity_builders : List String → Run Budget
  identity_builders [] = report []
  identity_builders (k ∷ ks) =
      (if contains (field_names identity) k
        then validate_recipe_builder ("template" ∷ "input" ∷ []) (lookup k identity)
            (at_field path k) 0
        else report (unless false (at_field path k ∷ " is required" ∷ [])))
      >>> identity_builders ks

abbrev pub identity_errors : String → Value → Run Budget
identity_errors path (obj fs) =
    report (allow_names path identity_keys (field_names fs))
    >>> identity_builders path fs identity_keys
identity_errors path _ = report (unless false (path ∷ " must be an object" ∷ []))

abbrev text_kind : Value → List String → List String
text_kind (str s) kinds = s ∷ kinds
text_kind _ kinds = kinds

-- The errors of one selector of a kind, and the kinds with its own.
unfoldable pub kind_selector : String → List String → Value → List String × List String
kind_selector path kinds (obj fs) =
    let kind = lookup "kind" fs in
    let selector = lookup "selector" fs in
    (
      allow_names path ("kind" ∷ "selector" ∷ []) (field_names fs)
          ++ recipe_id_errors kind (at_field path "kind")
          ++ unless (not (recipe_id kind && text_among kinds kind))
              (path ∷ ".kind must be unique" ∷ [])
          ++ validate_recipe_selector none selector (at_field path "selector")
          ++ unless (not (selector_references_attribute selector "kind"))
              (path ∷ ".selector must not derive kind from kind" ∷ []),
      text_kind kind kinds,
    )
kind_selector path kinds _ = (unless false (path ∷ " must be an object" ∷ []), kinds)

module _ (path : String) where
  -- The first 32 selectors are looked at, with the kinds seen before.
  abbrev pub kind_selectors_from : ℕ → List Value → ℕ → List String → List String × List String
  kind_selectors_from left [] n kinds = ([], kinds)
  kind_selectors_from zero (v ∷ vs) n kinds = ([], kinds)
  kind_selectors_from (suc left) (v ∷ vs) n kinds =
      let one = kind_selector (indexed path n) kinds v in
      let rest = kind_selectors_from left vs (n + 1) one.1 in (one.0 ++ rest.0, rest.1)

  abbrev pub kind_selectors : Value → List String × List String
  kind_selectors (arr vs) =
      let each = kind_selectors_from 32 (items vs) 0 [] in
      (
        unless (not (length (items vs) == 0)) (path ∷ " must be non-empty" ∷ [])
            ++ unless (leb (length (items vs)) 32) (path ∷ " must contain at most 32 items" ∷ [])
            ++ each.0,
        each.1,
      )
  kind_selectors _ = (unless false (path ∷ " must be an array" ∷ []), [])

module _ (builder_ids kinds : List String) where
  -- The body of the loop over the rules.
  unfoldable pub validate_rule : Value → String → List String
  validate_rule (obj fs) path =
      allow_names path ("selector" ∷ "cardinality" ∷ "action" ∷ []) (field_names fs)
      ++ validate_recipe_selector (some kinds) (lookup "selector" fs) (at_field path "selector")
      ++ cardinality_errors (lookup "cardinality" fs) path
      ++ validate_recipe_action builder_ids (lookup "action" fs) (at_field path "action")
  validate_rule _ path = unless false (path ∷ " must be an object" ∷ [])

  abbrev pub rules_from : String → ℕ → List Value → ℕ → List String
  rules_from path left [] n = []
  rules_from path zero (v ∷ vs) n = []
  rules_from path (suc left) (v ∷ vs) n =
      validate_rule v (indexed path n) ++ rules_from path left vs (n + 1)

abbrev pub is_serial : Value → Bool
is_serial rule = is_str (get (get rule "action") "type") "serial"

abbrev pub count_serial : List Value → ℕ
count_serial [] = 0
count_serial (v ∷ vs) = (if is_serial v then 1 else 0) + count_serial vs

abbrev pub rules_errors : List String → List String → String → Value → List String
rules_errors builder_ids kinds path (arr (element v vs)) =
    unless (leb (length (v ∷ items vs)) 32) (path ∷ " must contain at most 32 items" ∷ [])
    ++ rules_from builder_ids kinds path 32 (v ∷ items vs) 0
    ++ unless (count_serial (v ∷ items vs) == 1)
        (path ∷ " must contain exactly one serial action" ∷ [])
rules_errors builder_ids kinds path _ = unless false (path ∷ " must be a non-empty array" ∷ [])

abbrev resolver_keys : List String
resolver_keys =
    "version" ∷ "identity" ∷ "searchTextAttributes" ∷ "optionSearchTextAttributes" ∷ "kindSelectors"
    ∷ "rules" ∷ []

abbrev pub resolver_rules : List String → String → Properties → List String
resolver_rules builder_ids path fs =
    let kinds = kind_selectors (at_field path "kindSelectors") (lookup "kindSelectors" fs) in
    attribute_array (lookup "searchTextAttributes" fs) (at_field path "searchTextAttributes")
    ++ attribute_array (lookup "optionSearchTextAttributes" fs)
        (at_field path "optionSearchTextAttributes")
    ++ kinds.0
    ++ rules_errors builder_ids kinds.1 (at_field path "rules") (lookup "rules" fs)

-- validateRecipeResolver
unfoldable pub validate_recipe_resolver : List String → Value → String → Run Budget
validate_recipe_resolver builder_ids (obj fs) path =
    report (
      allow_names path resolver_keys (field_names fs)
      ++ unless (is_nat (lookup "version" fs) 1) (path ∷ ".version must be 1" ∷ []))
    >>> identity_errors (at_field path "identity") (lookup "identity" fs)
    >>> report (resolver_rules builder_ids path fs)
validate_recipe_resolver builder_ids _ path =
    report (unless false (path ∷ " must be an object" ∷ []))

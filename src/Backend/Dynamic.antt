-- ===== src/Backend/Dynamic.antt =====
-- api/backend-adapter-dynamic-previous-step.js: named builders, resolvers, and the references of
-- profiles to them.
pub mod Closed
pub mod Aliases
use autoform_panel.Backend.Recipe.Resolver.{validate_recipe_resolver}
use autoform_panel.Js.Print.{to_text}
use autoform_panel.Backend.Recipe.{recipe_id_errors}
use autoform_panel.Js.Text.{numeral}
use autoform_panel.Backend.Outcome.{operation_of}
use autoform_panel.Backend.{all_roots, str, ◌>>>◌, report, Run}
use autoform_panel.Stats.{at_field, elements, own_keys, unless}
use autoform_panel.Js.Value.{
  undefined, no_property, string_of, truthy, lookup, is_str, field_names, property, obj, get,
  contains, Value, Properties,
}
use autoform_panel.Backend.Recipe.Builder.{validate_recipe_builder, new_budget, Budget}
use autoform_panel.Prelude.{
  str_eq, ℕ, zero, suc, ◌+◌, String, Bool, true, false, not, Option, none, some, List, [], ◌∷◌,
  ◌++◌, leb, if◌then◌else◌, length,
}
use Prim.Native.String

abbrev pub builders_path : String
builders_path = "operations.previousSteps.optionValueBuilders"

abbrev pub resolvers_path : String
resolvers_path = "operations.previousSteps.recipeResolvers"

-- The first `left` of the named builders share one budget.
abbrev pub named_builders : ℕ → Properties → Run Budget
named_builders left no_property = report []
named_builders zero (property id v fs) = report []
named_builders (suc left) (property id v fs) =
    report (recipe_id_errors (str id) (at_field builders_path id))
    >>> validate_recipe_builder all_roots v (at_field builders_path id) 0
    >>> named_builders left fs

abbrev pub builders_run : Value → Run Budget
builders_run (obj fs) =
    report (
      unless (leb (length (field_names fs)) 32)
        (builders_path ∷ " must contain at most 32 entries" ∷ []))
    >>> named_builders 32 fs
builders_run _ = report (unless false (builders_path ∷ " must be an object" ∷ []))

-- Each resolver starts from the budget that the named builders left.
abbrev pub resolvers_from : List String → Budget → ℕ → Properties → List String
resolvers_from ids b left no_property = []
resolvers_from ids b zero (property id v fs) = []
resolvers_from ids b (suc left) (property id v fs) =
    recipe_id_errors (str id) (at_field resolvers_path id)
    ++ (validate_recipe_resolver ids v (at_field resolvers_path id) b).0
    ++ resolvers_from ids b left fs

abbrev pub resolvers_errors : List String → Budget → Value → List String
resolvers_errors ids b (obj fs) =
    unless (leb (length (field_names fs)) 32)
      (resolvers_path ∷ " must contain at most 32 entries" ∷ [])
    ++ resolvers_from ids b 32 fs
resolvers_errors ids b _ = unless false (resolvers_path ∷ " must be an object" ∷ [])

-- validateDynamicPreviousStepOperation
unfoldable pub validate_dynamic_previous_step_operation : Value → Bool → List String
validate_dynamic_previous_step_operation (obj fs) required =
    let builders = lookup "optionValueBuilders" fs in
    let named = builders_run builders new_budget in
    named.0 ++ resolvers_errors (own_keys builders) named.1 (lookup "recipeResolvers" fs)
validate_dynamic_previous_step_operation _ required =
    unless (not required) ("operations.previousSteps must be configured" ∷ [])

-- validateDynamicPreviousStepConfig
unfoldable pub validate_dynamic_previous_step_config : Value → List String
validate_dynamic_previous_step_config adapter =
    validate_dynamic_previous_step_operation (operation_of adapter "previousSteps") true

-- The source of a rule that takes a photo, if it is a text.
abbrev pub photo_source : Value → Option String
photo_source rule =
    let action = get rule "action" in
    if is_str (get action "type") "photo" then string_of (get action "source") else none

abbrev pub add_source : Option String → List String → List String
add_source none used = used
add_source (some s) used = s ∷ used

abbrev pub used_sources : List Value → List String
used_sources [] = []
used_sources (rule ∷ rules) = add_source (photo_source rule) (used_sources rules)

module _ (quote : String → String) (path : String) where
  -- `quote` is JSON.stringify of a text.
  abbrev pub source_error : List String → ℕ → Option String → List String
  source_error aliases n none = []
  source_error aliases n (some s) =
      unless (contains aliases s) (
        path ∷ ".sources must define alias " ∷ quote s ∷ " used by resolver rule " ∷ numeral n ∷ [])

  abbrev pub sources_from : List String → List Value → ℕ → List String
  sources_from aliases [] n = []
  sources_from aliases (rule ∷ rules) n =
      source_error aliases n (photo_source rule) ++ sources_from aliases rules (n + 1)

  abbrev pub unused_aliases : List String → List String → List String
  unused_aliases used [] = []
  unused_aliases used (a ∷ as_left) =
      unless (contains used a)
        (path ∷ ".sources alias " ∷ quote a ∷ " is not used by its resolver" ∷ [])
      ++ unused_aliases used as_left

  abbrev pub resolver_references : Value → List String → List String
  resolver_references (obj fs) aliases =
      let rules = elements (lookup "rules" fs) in
      sources_from aliases rules 0 ++ unused_aliases (used_sources rules) aliases
  resolver_references _ aliases =
      unless false
        (path ∷ ".resolverId must reference operations.previousSteps.recipeResolvers" ∷ [])

abbrev pub recipe_path : Value → String
recipe_path recipe =
    let path = get recipe "path" in
    if truthy path then to_text path else "workflow.previousSteps.templates[]"

abbrev pub resolver_name : Value → String
resolver_name recipe = to_text (get (get recipe "template") "resolverId")

-- `isPlainObject(resolvers) ? resolvers[resolverId] : undefined`. Of the names that the prototype
-- holds only `__proto__` gives a plain object, the prototype, which has no fields; the others give
-- functions, which are no plain objects, here undefined.
abbrev pub named_resolver : Value → Value → Value
named_resolver (obj fs) recipe =
    if contains (field_names fs) (resolver_name recipe)
    then lookup (resolver_name recipe) fs
    else if str_eq (resolver_name recipe) "__proto__"
    then obj no_property
    else undefined
named_resolver _ recipe = undefined

-- The body of the loop over the recipes.
unfoldable pub recipe_references : (String → String) → Value → Value → List String
recipe_references quote resolvers recipe =
    resolver_references quote (recipe_path recipe) (named_resolver resolvers recipe)
      (own_keys (get (get recipe "template") "sources"))

abbrev pub references_from : (String → String) → Value → List Value → List String
references_from quote resolvers [] = []
references_from quote resolvers (r ∷ rs) =
    recipe_references quote resolvers r ++ references_from quote resolvers rs

-- validateDynamicPreviousStepReferences
unfoldable pub validate_dynamic_previous_step_references :
    (String → String) → Value → Value → List String
validate_dynamic_previous_step_references quote adapter recipes =
    references_from quote (get (operation_of adapter "previousSteps") "recipeResolvers")
      (elements recipes)

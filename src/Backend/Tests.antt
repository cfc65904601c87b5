-- ===== src/Backend/Tests.antt =====
-- Concrete literals, builders and resolvers.
use autoform_panel.Js.Text.{split_dots, numeral}
use autoform_panel.Backend.Recipe.{
  attribute_array, selector_references_attribute, validate_recipe_selector,
  validate_recipe_predicate, validate_recipe_path, recipe_id,
}
use autoform_panel.Backend.{all_roots}
use autoform_panel.Notification.Round.Container.{height}
use autoform_panel.Backend.Recipe.Resolver.{
  validate_rule, kind_selector, validate_recipe_action, validate_option_selector,
  validate_recipe_resolver,
}
use autoform_panel.Backend.Recipe.Literal.Bounds.{validate_recipe_literal-bounded, size}
use autoform_panel.Backend.Recipe.Builder.Bounds.{validate_recipe_builder-bounded, levels, nodes}
use autoform_panel.Backend.Recipe.Literal.{validate_recipe_literal, literal_errors}
use autoform_panel.Js.Value.{
  from_list, no_element, bool, element, str, nat, arr, object, obj, from_pairs, Value, Properties,
}
use autoform_panel.Backend.Recipe.Builder.{new_budget, validate_recipe_builder, Budget}
use autoform_panel.Prelude.{◌≤◌, String, ◌≡◌, refl, true, List, [], ◌∷◌}

unfoldable pub recipe_checks : Unit {0}
unfolding validate_recipe_literal validate_recipe_builder recipe_id validate_recipe_path
    validate_recipe_predicate validate_recipe_selector selector_references_attribute
    validate_option_selector validate_recipe_action kind_selector validate_rule
    validate_recipe_resolver attribute_array size height nodes levels numeral split_dots
recipe_checks = tt

abbrev literal_value : Value
literal_value = object (("a", arr (element (nat 1) no_element)) ∷ [])

literal_quiet : literal_errors literal_value "v" ≡ []
unfolding recipe_checks
literal_quiet = refl

validate_recipe_literal-bounded_example : (size literal_value ≤ 256) × (height literal_value ≤ 12)
validate_recipe_literal-bounded_example =
    validate_recipe_literal-bounded literal_value "v" literal_quiet

abbrev pub id_builder : Value
id_builder =
    object (("type", str "integer") ∷ ("path", str "template.id") ∷ ("default", nat 0) ∷ [])

abbrev object_builder : Value
object_builder = object (
    ("type", str "object")
    ∷ ("members", object (("id", id_builder) ∷ ("again", id_builder) ∷ []))
    ∷ [])

abbrev builder_result : List String × Budget
builder_result = validate_recipe_builder all_roots object_builder "b" 0 new_budget

builder_quiet : builder_result.0 ≡ []
unfolding recipe_checks
builder_quiet = refl

counted : builder_result.1.count ≡ 3
unfolding recipe_checks
counted = refl

validate_recipe_builder-bounded_example :
    (nodes object_builder ≤ 512)
    × (levels object_builder ≤ 8)
    × (builder_result.1.count ≡ nodes object_builder)
validate_recipe_builder-bounded_example =
    validate_recipe_builder-bounded all_roots object_builder "b" builder_quiet

abbrev by_id : String → Value
by_id id = object (
    (
      "allOf",
      arr (
          element
            (object (
              ("attribute", str "id")
              ∷ ("caseSensitive", bool true)
              ∷ ("equalsAny", arr (element (str id) no_element))
              ∷ []))
            no_element),
    )
    ∷ [])

abbrev rule_of : Value → Value
rule_of action =
    object (("selector", by_id "7") ∷ ("cardinality", str "exactly_one") ∷ ("action", action) ∷ [])

abbrev fixed_action : String → Value
fixed_action builder = object (
    ("type", str "fixedOption")
    ∷ (
      "optionSelectors",
      arr (
          element (object (("selector", by_id "8") ∷ ("cardinality", str "exactly_one") ∷ []))
            no_element),
    )
    ∷ ("valueBuilder", str builder)
    ∷ ("onNoMatch", str "reject")
    ∷ [])

abbrev pub resolver_with : String → Properties
resolver_with builder = from_pairs (
    ("version", nat 1)
    ∷ (
      "identity",
      object (
          ("templateId", id_builder)
          ∷ ("expectedStep", id_builder)
          ∷ ("warehouseId", id_builder)
          ∷ ("sku", id_builder)
          ∷ []),
    )
    ∷ ("searchTextAttributes", arr (element (str "title") no_element))
    ∷ ("optionSearchTextAttributes", arr no_element)
    ∷ (
      "kindSelectors",
      arr (element (object (("kind", str "Serial") ∷ ("selector", by_id "1") ∷ [])) no_element),
    )
    ∷ (
      "rules",
      arr (
          from_list
            (rule_of (object (("type", str "serial") ∷ [])) ∷ rule_of (fixed_action builder) ∷ [])),
    )
    ∷ [])

resolver_quiet :
    (validate_recipe_resolver ("make" ∷ []) (obj (resolver_with "make")) "r" new_budget).0 ≡ []
unfolding recipe_checks
resolver_quiet = refl

unknown_builder :
    (validate_recipe_resolver ("make" ∷ []) (obj (resolver_with "other")) "r" new_budget).0
    ≡ "r.rules[1].action.valueBuilder must reference operations.previousSteps.optionValueBuilders"
      ∷ []
unfolding recipe_checks
unknown_builder = refl

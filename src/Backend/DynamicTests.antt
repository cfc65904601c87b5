-- ===== src/Backend/DynamicTests.antt =====
-- A concrete operation of previous steps, and a recipe that refers to it.
use autoform_panel.Js.Print.{to_text}
use autoform_panel.Backend.Recipe.Builder.Bounds.{fields_nodes}
use autoform_panel.Stats.{elements}
use autoform_panel.Backend.Outcome.{operation_of}
use autoform_panel.Backend.Dynamic.{
  recipe_references, validate_dynamic_previous_step_references,
  validate_dynamic_previous_step_operation,
}
use autoform_panel.Backend.Tests.{resolver_with, id_builder, recipe_checks}
use autoform_panel.Js.Value.{
  from_list, field_names, no_element, str, element, object, obj, get, from_pairs, arr, Value,
  Properties,
}
use autoform_panel.Backend.Dynamic.Aliases.{
  References, validate_dynamic_previous_step_references-Matched,
}
use autoform_panel.Backend.Dynamic.Closed.{
  validate_dynamic_previous_step_operation-closed, AllResolvers,
}
use autoform_panel.Prelude.{◌≤◌, String, ◌≡◌, refl, true, [], ◌∷◌, All}

unfoldable dynamic_checks : Unit {0}
unfolding to_text recipe_checks validate_dynamic_previous_step_operation recipe_references
    validate_dynamic_previous_step_references
dynamic_checks = tt

abbrev operation : Properties
operation = from_pairs (
    ("optionValueBuilders", object (("make", id_builder) ∷ []))
    ∷ ("recipeResolvers", object (("first", obj (resolver_with "make")) ∷ []))
    ∷ [])

operation_quiet : validate_dynamic_previous_step_operation (obj operation) true ≡ []
unfolding dynamic_checks
operation_quiet = refl

validate_dynamic_previous_step_operation-closed_example :
    (builders resolvers : Properties) × (object (("make", id_builder) ∷ []) ≡ obj builders)
    × (object (("first", obj (resolver_with "make")) ∷ []) ≡ obj resolvers)
    × (fields_nodes builders ≤ 512)
    × AllResolvers (field_names builders) resolvers
validate_dynamic_previous_step_operation-closed_example =
    validate_dynamic_previous_step_operation-closed operation true operation_quiet

abbrev photo_rule : Value
photo_rule = object (
    ("action", object (("type", str "photo") ∷ ("source", str "front") ∷ ("joinWith", str "") ∷ []))
    ∷ [])

abbrev photo_adapter : Value
photo_adapter = object (
    (
      "operations",
      object (
          (
            "previousSteps",
            object (
                (
                  "recipeResolvers",
                  object (
                      ("first", object (("rules", arr (element photo_rule no_element)) ∷ [])) ∷ []),
                )
                ∷ []),
          )
          ∷ []),
    )
    ∷ [])

abbrev recipe_with : String → Value
recipe_with alias = arr (
    element
      (object (
        ("path", str "p")
        ∷ (
          "template",
          object
              (("resolverId", str "first") ∷ ("sources", object ((alias, str "photo") ∷ [])) ∷ []),
        )
        ∷ []))
      no_element)

abbrev quoted : String → String
quoted s = s

references_quiet :
    validate_dynamic_previous_step_references quoted photo_adapter (recipe_with "front") ≡ []
unfolding dynamic_checks
references_quiet = refl

wrong_alias :
    validate_dynamic_previous_step_references quoted photo_adapter (recipe_with "back")
    ≡ "p.sources must define alias front used by resolver rule 0"
      ∷ "p.sources alias back is not used by its resolver" ∷ []
unfolding dynamic_checks
wrong_alias = refl

validate_dynamic_previous_step_references-Matched_example :
    All
      (References (get (operation_of photo_adapter "previousSteps") "recipeResolvers"))
      (elements (recipe_with "front"))
validate_dynamic_previous_step_references-Matched_example =
    validate_dynamic_previous_step_references-Matched quoted photo_adapter (recipe_with "front")
      references_quiet

-- A recipe may name the prototype of objects.
prototype_named :
    validate_dynamic_previous_step_references quoted photo_adapter (
      arr (
        from_list (
          object (
            ("template", object (("resolverId", str "__proto__") ∷ ("sources", object []) ∷ []))
            ∷ [])
          ∷ [])))
    ≡ []
unfolding dynamic_checks
prototype_named = refl

-- ===== src/Backend/Dynamic/Closed.antt =====
-- Operations of previous steps without errors.
use autoform_panel.Backend.{all_roots}
use autoform_panel.Backend.Recipe.{recipe_id_errors}
use autoform_panel.Stats.Distinct.{unless-nil, nil-append}
use autoform_panel.Backend.Recipe.Resolver.Valid.{
  AreKinds, validate_recipe_resolver-valid, AreRules,
}
use autoform_panel.Backend.Recipe.Resolver.{validate_recipe_resolver}
use autoform_panel.Backend.Dynamic.{
  str, unless, own_keys, builders_path, named_builders, at_field, resolvers_path, resolvers_from,
  lookup, get, resolvers_errors, property, obj, field_names, builders_run,
  validate_dynamic_previous_step_operation,
}
use autoform_panel.Backend.Recipe.Builder.Bounds.{builder-Counts, fields_nodes, Fine, nodes}
use autoform_panel.Js.Value.{null, undefined, arr, num, bool, no_property, Value, Properties}
use autoform_panel.Backend.Recipe.Builder.{validate_recipe_builder, new_budget, Budget}
use autoform_panel.Prelude.{
  ℕ, zero, suc, ◌+◌, ◌≤◌, String, ◌≡◌, refl, Bool, List, [], ◌∷◌, ◌++◌, arith, leb, leb→le, length,
}

named_builders-Counts :
    (left : ℕ) (fs : Properties) (b : Budget)
    → length (field_names fs) ≤ left
    → Fine b
    → (named_builders left fs b).0 ≡ []
    → ((named_builders left fs b).1.count ≡ b.count + fields_nodes fs)
      × Fine (named_builders left fs b).1
unfolding nodes
named_builders-Counts left no_property b few fine h = (omega arith, fine)
named_builders-Counts zero (property id v fs) b few fine h = absurd (omega arith)
named_builders-Counts (suc left) (property id v fs) b few fine h =
    let path = at_field builders_path id in
    let one = validate_recipe_builder all_roots v path 0 in
    let others = named_builders left fs in
    let (named, rest) = nil-append (recipe_id_errors (str id) path) _ h in
    let (first, more) = nil-append (one b).0 (others (one b).1).0 rest in
    let (count, kept, deep) = builder-Counts all_roots v path 0 b fine first in
    let (count₁, kept₁) = named_builders-Counts left fs (one b).1 (omega arith) kept more in
    (omega arith, kept₁)

builders_run-Counts :
    (v : Value)
    → (builders_run v new_budget).0 ≡ []
    → (fs : Properties) × (v ≡ obj fs) × (fields_nodes fs ≤ 512)
builders_run-Counts (obj fs) h =
    let many = builders_path ∷ " must contain at most 32 entries" ∷ [] in
    let (few, each) =
      nil-append (unless (leb (length (field_names fs)) 32) many)
        (named_builders 32 fs new_budget).0 h in
    let short =
      leb→le (length (field_names fs)) 32
        (unless-nil (leb (length (field_names fs)) 32) many few) in
    let (count, kept) = named_builders-Counts 32 fs new_budget short (refl, omega arith) each in
    (fs, refl, omega (arith, kept.1))
builders_run-Counts undefined h = cc
builders_run-Counts null h = cc
builders_run-Counts (bool b) h = cc
builders_run-Counts (num n) h = cc
builders_run-Counts (str s) h = cc
builders_run-Counts (arr vs) h = cc

-- A resolver whose rules refer to the builders `ids`.
abbrev pub IsResolver : List String → Value → Type 0
IsResolver ids v = AreRules ids (get v "rules") × AreKinds (get v "kindSelectors")

abbrev pub AllResolvers : List String → Properties → Type 0
AllResolvers ids no_property = Unit {0}
AllResolvers ids (property id v fs) = IsResolver ids v × AllResolvers ids fs

validate_recipe_resolver-IsResolver :
    (ids : List String) (v : Value) (path : String) (b : Budget)
    → (validate_recipe_resolver ids v path b).0 ≡ []
    → IsResolver ids v
unfolding validate_recipe_resolver
validate_recipe_resolver-IsResolver ids (obj fs) path b h =
    validate_recipe_resolver-valid ids fs path b h
validate_recipe_resolver-IsResolver ids undefined path b h = cc
validate_recipe_resolver-IsResolver ids null path b h = cc
validate_recipe_resolver-IsResolver ids (bool t) path b h = cc
validate_recipe_resolver-IsResolver ids (num n) path b h = cc
validate_recipe_resolver-IsResolver ids (str s) path b h = cc
validate_recipe_resolver-IsResolver ids (arr vs) path b h = cc

module _ (ids : List String) (b : Budget) where
  resolvers_from-AllResolvers :
      (left : ℕ) (fs : Properties)
      → length (field_names fs) ≤ left
      → resolvers_from ids b left fs ≡ []
      → AllResolvers ids fs
  resolvers_from-AllResolvers left no_property few h = tt
  resolvers_from-AllResolvers zero (property id v fs) few h = absurd (omega arith)
  resolvers_from-AllResolvers (suc left) (property id v fs) few h =
      let path = at_field resolvers_path id in
      let one = (validate_recipe_resolver ids v path b).0 in
      let (before, others) =
        nil-append (recipe_id_errors (str id) path ++ one) (resolvers_from ids b left fs) h in
      let (named, first) = nil-append (recipe_id_errors (str id) path) one before in
      (
        validate_recipe_resolver-IsResolver ids v path b first,
        resolvers_from-AllResolvers left fs (omega arith) others,
      )

  resolvers_errors-AllResolvers :
      (v : Value)
      → resolvers_errors ids b v ≡ []
      → (fs : Properties) × (v ≡ obj fs) × AllResolvers ids fs
  resolvers_errors-AllResolvers (obj fs) h =
      let many = resolvers_path ∷ " must contain at most 32 entries" ∷ [] in
      let (few, each) =
        nil-append (unless (leb (length (field_names fs)) 32) many) (resolvers_from ids b 32 fs)
          h in
      (
        fs,
        refl,
        resolvers_from-AllResolvers 32 fs
            (leb→le (length (field_names fs)) 32
              (unless-nil (leb (length (field_names fs)) 32) many few))
            each,
      )
  resolvers_errors-AllResolvers undefined h = cc
  resolvers_errors-AllResolvers null h = cc
  resolvers_errors-AllResolvers (bool t) h = cc
  resolvers_errors-AllResolvers (num n) h = cc
  resolvers_errors-AllResolvers (str s) h = cc
  resolvers_errors-AllResolvers (arr vs) h = cc

under_builders :
    (v : Value) (builders resolvers : Properties)
    → v ≡ obj builders
    → AllResolvers (own_keys v) resolvers
    → AllResolvers (field_names builders) resolvers
under_builders v builders resolvers same closed = rw same at closed

-- An operation that is accepted has named builders, with at most 512 builders in all of them, and
-- resolvers. Each resolver has exactly one serial rule; its rules with fixed options refer only to
-- the named builders; its kinds are names that occur once; and no kind is selected by kinds.
pub validate_dynamic_previous_step_operation-closed :
    (fs : Properties) (required : Bool)
    → validate_dynamic_previous_step_operation (obj fs) required ≡ []
    → (builders resolvers : Properties) × (lookup "optionValueBuilders" fs ≡ obj builders)
      × (lookup "recipeResolvers" fs ≡ obj resolvers)
      × (fields_nodes builders ≤ 512)
      × AllResolvers (field_names builders) resolvers
unfolding validate_dynamic_previous_step_operation
validate_dynamic_previous_step_operation-closed fs required h =
    let v = lookup "optionValueBuilders" fs in
    let (named, each) =
      nil-append (builders_run v new_budget).0
        (resolvers_errors (own_keys v) (builders_run v new_budget).1 (lookup "recipeResolvers" fs))
        h in
    let (builders, same, few) = builders_run-Counts v named in
    let (resolvers, found, closed) =
      resolvers_errors-AllResolvers (own_keys v) (builders_run v new_budget).1
        (lookup "recipeResolvers" fs) each in
    (builders, resolvers, same, found, few, under_builders v builders resolvers same closed)

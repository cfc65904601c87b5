-- ===== src/Backend/Dynamic/Aliases.antt =====
-- References of recipes to the resolvers of previous steps without errors.
use autoform_panel.Backend.Outcome.{operation_of}
use autoform_panel.Backend.{contains}
use autoform_panel.Stats.Distinct.{unless-nil, nil-append}
use autoform_panel.Backend.Dynamic.{
  numeral, photo_source, source_error, used_sources, elements, resolver_references, references_from,
  validate_dynamic_previous_step_references, unused_aliases, sources_from, recipe_references,
  named_resolver, resolver_name, recipe_path, str, unless, own_keys, lookup, get, obj,
}
use autoform_panel.Js.Value.{
  no_property, has_own, field_names, null, undefined, arr, num, bool, Value, Properties,
}
use autoform_panel.Prelude.{
  sym, Bool-cases, eq_iff, str_eq, ◌⊎◌, false, inl, inr, true, Option-cases, all, All, ℕ, ◌+◌,
  String, ◌≡◌, refl, List, [], ◌∷◌,
}

abbrev pub aliases_of : Value → List String
aliases_of recipe = own_keys (get (get recipe "template") "sources")

-- The aliases of a recipe's photo sources are those that the resolver `fs` uses.
abbrev pub Matched : Properties → Value → Type 0
Matched fs recipe =
    (all (contains (aliases_of recipe)) (used_sources (elements (lookup "rules" fs))) ≡ true)
    × (all (contains (used_sources (elements (lookup "rules" fs)))) (aliases_of recipe) ≡ true)

-- A recipe names a resolver among the fields of `resolvers` and has the aliases that this uses; or
-- it names the prototype of objects, and has no aliases.
abbrev pub References : Value → Value → Type 0
References resolvers recipe =
    ((fs : Properties) × (has_own resolvers (resolver_name recipe) ≡ true)
      × (get resolvers (resolver_name recipe) ≡ obj fs)
      × Matched fs recipe)
    ⊎ ((resolver_name recipe ≡ "__proto__")
        × (has_own resolvers "__proto__" ≡ false)
        × (aliases_of recipe ≡ []))

obj-injective : (fs gs : Properties) → obj fs ≡ obj gs → fs ≡ gs
obj-injective fs gs h = cc

all-none : (aliases : List String) → all (contains []) aliases ≡ true → aliases ≡ []
all-none [] h = refl
all-none (a ∷ aliases) h = cc

module _ (quote : String → String) (path : String) where
  sources_from-contained :
      (aliases : List String) (rules : List Value) (n : ℕ)
      → sources_from quote path aliases rules n ≡ []
      → all (contains aliases) (used_sources rules) ≡ true
  sources_from-contained aliases [] n h = refl
  sources_from-contained aliases (rule ∷ rules) n h =
      let (first, rest) =
        nil-append (source_error quote path aliases n (photo_source rule))
          (sources_from quote path aliases rules (n + 1)) h in
      let others = sources_from-contained aliases rules (n + 1) rest in
      elim (Option-cases (photo_source rule)) [
        | inl e ↦ rw e others
        | inr (s, e) ↦
            let one =
              unless-nil (contains aliases s)
                (path
                  ∷ ".sources must define alias "
                  ∷ quote s
                  ∷ " used by resolver rule "
                  ∷ numeral n
                  ∷ [])
                (rw e at first) in
            rw (e, one, others) refl
      ]

  unused_aliases-contained :
      (used aliases : List String)
      → unused_aliases quote path used aliases ≡ []
      → all (contains used) aliases ≡ true
  unused_aliases-contained used [] h = refl
  unused_aliases-contained used (a ∷ aliases) h =
      let words = path ∷ ".sources alias " ∷ quote a ∷ " is not used by its resolver" ∷ [] in
      let (first, rest) =
        nil-append (unless (contains used a) words) (unused_aliases quote path used aliases) h in
      let others = unused_aliases-contained used aliases rest in
      let one = unless-nil (contains used a) words first in rw (one, others) refl

module _ (quote : String → String) where
  resolver_references-Matched :
      (path : String) (recipe v : Value)
      → resolver_references quote path v (aliases_of recipe) ≡ []
      → (fs : Properties) × (v ≡ obj fs) × Matched fs recipe
  resolver_references-Matched path recipe (obj fs) h =
      let rules = elements (lookup "rules" fs) in
      let (defined, used) =
        nil-append (sources_from quote path (aliases_of recipe) rules 0)
          (unused_aliases quote path (used_sources rules) (aliases_of recipe)) h in
      (
        fs,
        refl,
        (
          sources_from-contained quote path (aliases_of recipe) rules 0 defined,
          unused_aliases-contained quote path (used_sources rules) (aliases_of recipe) used,
        ),
      )
  resolver_references-Matched path recipe undefined h = cc
  resolver_references-Matched path recipe null h = cc
  resolver_references-Matched path recipe (bool b) h = cc
  resolver_references-Matched path recipe (num n) h = cc
  resolver_references-Matched path recipe (str s) h = cc
  resolver_references-Matched path recipe (arr vs) h = cc

  named_resolver-References :
      (resolvers recipe : Value) (gs : Properties)
      → named_resolver resolvers recipe ≡ obj gs
      → Matched gs recipe
      → References resolvers recipe
  named_resolver-References (obj fs) recipe gs e h =
      elim (Bool-cases (contains (field_names fs) (resolver_name recipe))) [
        | inl own ↦ inl (gs, own, rw own at e, h)
        | inr other ↦ elim (Bool-cases (str_eq (resolver_name recipe) "__proto__")) [
          | inl same ↦
              let none_used = obj-injective no_property gs (rw (other, same) at e) in
              let name = (eq_iff (resolver_name recipe) "__proto__").0 same in
              inr (name, rw name at other, all-none (aliases_of recipe) (rw (sym none_used) at h.1))
          | inr none_ ↦ let broken = rw (other, none_) at e in cc
        ]
      ]
  named_resolver-References undefined recipe gs e h = cc
  named_resolver-References null recipe gs e h = cc
  named_resolver-References (bool b) recipe gs e h = cc
  named_resolver-References (num n) recipe gs e h = cc
  named_resolver-References (str s) recipe gs e h = cc
  named_resolver-References (arr vs) recipe gs e h = cc

  references_from-References :
      (resolvers : Value) (recipes : List Value)
      → references_from quote resolvers recipes ≡ []
      → All (References resolvers) recipes
  unfolding recipe_references
  references_from-References resolvers [] h = tt
  references_from-References resolvers (r ∷ rs) h =
      let (first, rest) =
        nil-append (recipe_references quote resolvers r) (references_from quote resolvers rs) h in
      let (gs, e, matched) =
        resolver_references-Matched (recipe_path r) r (named_resolver resolvers r) first in
      (
        named_resolver-References resolvers r gs e matched,
        references_from-References resolvers rs rest,
      )

-- If the references of recipes are accepted, each recipe names a resolver among the fields of
-- recipeResolvers, and the aliases of its photo sources are exactly those that the resolver's rules
-- use; or it names `__proto__`, which is no such field, and has no photo sources.
pub validate_dynamic_previous_step_references-Matched :
    (quote : String → String) (adapter recipes : Value)
    → validate_dynamic_previous_step_references quote adapter recipes ≡ []
    → All
        (References (get (operation_of adapter "previousSteps") "recipeResolvers"))
        (elements recipes)
unfolding validate_dynamic_previous_step_references
validate_dynamic_previous_step_references-Matched quote adapter recipes h =
    references_from-References quote (get (operation_of adapter "previousSteps") "recipeResolvers")
      (elements recipes) h

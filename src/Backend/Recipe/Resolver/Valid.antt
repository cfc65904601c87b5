-- ===== src/Backend/Recipe/Resolver/Valid.antt =====
-- Resolvers without errors.
use autoform_panel.Backend.Recipe.Builder.{Budget}
use autoform_panel.Pairing.Messages.Keys.{is_str-eq}
use autoform_panel.Backend.{unless, text_among}
use autoform_panel.Stats.Distinct.{unless-nil, nil-append, all_new}
use autoform_panel.Backend.Recipe.{
  items, element, Properties, at_field, arr, num, lookup, indexed, selector_references_attribute,
  obj, is_str, bool, str, get, contains, recipe_id,
}
use autoform_panel.Backend.Recipe.Resolver.{
  resolver_rules, fixed_option, validate_rule, validate_recipe_resolver, rules_from, rules_errors,
  kind_selectors, count_serial, kind_selectors_from, validate_recipe_action, kind_selector,
}
use autoform_panel.Stats.{elements, text_or_empty, among}
use autoform_panel.Js.Value.{no_element, null, undefined, Value}
use autoform_panel.Prelude.{
  inl, inr, leb, ◌==◌, leb→le, ==_iff, Bool-cases, ℕ, zero, suc, ◌+◌, ◌≤◌, String, ◌≡◌, refl, ap,
  Bool, true, false, not, ◌&&◌, ◌||◌, List, [], ◌∷◌, map, arith, str_eq, if◌then◌else◌, length, all,
}

abbrev pub kind_of : Value → String
kind_of v = text_or_empty (get v "kind")

-- The kind of a selector is a name, and the selector does not look at kinds.
abbrev pub is_kind_selector : Value → Bool
is_kind_selector v =
    recipe_id (get v "kind") && not (selector_references_attribute (get v "selector") "kind")

-- The value builder that a rule refers to, if it does, is among the ids.
abbrev pub refers_known : List String → Value → Bool
refers_known ids rule =
    let action = get rule "action" in
    if is_str (get action "type") "fixedOption"
    then recipe_id (get action "valueBuilder") && text_among ids (get action "valueBuilder")
    else true

recipe_id-text : (v : Value) → recipe_id v ≡ true → (s : String) × (v ≡ str s)
unfolding recipe_id
recipe_id-text (str s) h = (s, refl)
recipe_id-text undefined h = cc
recipe_id-text null h = cc
recipe_id-text (bool b) h = cc
recipe_id-text (num n) h = cc
recipe_id-text (arr vs) h = cc
recipe_id-text (obj fs) h = cc

contains-among : (ks : List String) (k : String) → among str_eq ks k ≡ contains ks k
contains-among [] k = refl
contains-among (j ∷ js) k = ap (λ (b : Bool). str_eq j k || b) (contains-among js k)

not_both : (a b : Bool) → not (a && b) ≡ true → a ≡ true → b ≡ false
not_both a b h k = ground arith

implied : (a b : Bool) → (not a || b) ≡ true → a ≡ true → b ≡ true
implied a b h k = ground arith

-- What one selector of a kind without errors gives.
kind_selector-valid :
    (path : String) (kinds : List String) (v : Value)
    → (kind_selector path kinds v).0 ≡ []
    → (is_kind_selector v ≡ true)
      × (contains kinds (kind_of v) ≡ false)
      × ((kind_selector path kinds v).1 ≡ kind_of v ∷ kinds)
unfolding kind_selector
kind_selector-valid path kinds (obj fs) h =
    let kind = lookup "kind" fs in
    let own = path ∷ ".selector must not derive kind from kind" ∷ [] in
    let once = path ∷ ".kind must be unique" ∷ [] in
    let named =
      at_field path "kind"
      ∷ " must match [A-Za-z][A-Za-z0-9_.-]* and contain at most 128 characters"
      ∷ [] in
    let (h₃, derived) = nil-append _ _ h in
    let (h₂, selector) = nil-append _ _ h₃ in
    let (h₁, unique) = nil-append _ _ h₂ in
    let (keys, is_name) = nil-append _ _ h₁ in
    let name = unless-nil (recipe_id kind) named is_name in
    let (s, same) = recipe_id-text kind name in
    let free = unless-nil (not (recipe_id kind && text_among kinds kind)) once unique in
    let apart =
      unless-nil (not (selector_references_attribute (lookup "selector" fs) "kind")) own derived in
    let absent = not_both (recipe_id kind) (text_among kinds kind) free name in
    (rw (name, apart) refl, rw same (rw same at absent), rw same refl)
kind_selector-valid path kinds undefined h = cc
kind_selector-valid path kinds null h = cc
kind_selector-valid path kinds (bool b) h = cc
kind_selector-valid path kinds (num n) h = cc
kind_selector-valid path kinds (str s) h = cc
kind_selector-valid path kinds (arr vs) h = cc

kind_selectors_from-valid :
    (path : String) (left : ℕ) (vs : List Value) (n : ℕ) (kinds : List String)
    → length vs ≤ left
    → (kind_selectors_from path left vs n kinds).0 ≡ []
    → (all is_kind_selector vs ≡ true) × (all_new str_eq kinds (map kind_of vs) ≡ true)
kind_selectors_from-valid path left [] n kinds few h = (refl, refl)
kind_selectors_from-valid path zero (v ∷ vs) n kinds few h = absurd (omega arith)
kind_selectors_from-valid path (suc left) (v ∷ vs) n kinds few h =
    let one = kind_selector (indexed path n) kinds v in
    let rest = kind_selectors_from path left vs (n + 1) one.1 in
    let (first, others) = nil-append one.0 rest.0 h in
    let (valid, fresh, next) = kind_selector-valid (indexed path n) kinds v first in
    let (valids, news) =
      kind_selectors_from-valid path left vs (n + 1) one.1 (omega arith) others in
    (rw (valid, valids) refl, rw (contains-among kinds (kind_of v), fresh, ← next) news)

fixed_option-known :
    (ids : List String) (path : String) (fs : Properties)
    → fixed_option ids path fs ≡ []
    → (recipe_id (lookup "valueBuilder" fs) && text_among ids (lookup "valueBuilder" fs)) ≡ true
fixed_option-known ids path fs h =
    let builder = lookup "valueBuilder" fs in
    let unknown =
      path ∷ ".valueBuilder must reference operations.previousSteps.optionValueBuilders" ∷ [] in
    let named =
      at_field path "valueBuilder"
      ∷ " must match [A-Za-z][A-Za-z0-9_.-]* and contain at most 128 characters"
      ∷ [] in
    let (h₃, no_match) = nil-append _ _ h in
    let (h₂, references) = nil-append _ _ h₃ in
    let (h₁, is_name) = nil-append _ _ h₂ in
    let name = unless-nil (recipe_id builder) named is_name in
    let known =
      implied (recipe_id builder) (text_among ids builder)
        (unless-nil (not (recipe_id builder) || text_among ids builder) unknown references) name in
    rw (name, known) refl

validate_recipe_action-known :
    (ids : List String) (rule action : Value) (path : String)
    → get rule "action" ≡ action
    → validate_recipe_action ids action path ≡ []
    → refers_known ids rule ≡ true
unfolding validate_recipe_action
validate_recipe_action-known ids rule (obj fs) path e h =
    elim (Bool-cases (is_str (lookup "type" fs) "fixedOption")) [
      | inl f ↦
          let fixed = rw (is_str-eq (lookup "type" fs) "fixedOption" f) at h in
          let known = fixed_option-known ids path fs fixed in rw (e, f, known) refl
      | inr f ↦ rw (e, f) refl
    ]
validate_recipe_action-known ids rule undefined path e h = cc
validate_recipe_action-known ids rule null path e h = cc
validate_recipe_action-known ids rule (bool b) path e h = cc
validate_recipe_action-known ids rule (num n) path e h = cc
validate_recipe_action-known ids rule (str s) path e h = cc
validate_recipe_action-known ids rule (arr vs) path e h = cc

-- One rule is serial, and every rule refers to a builder that there is.
abbrev pub AreRules : List String → Value → Type 0
AreRules ids v = (count_serial (elements v) ≡ 1) × (all (refers_known ids) (elements v) ≡ true)

module _ (ids kinds : List String) where
  validate_rule-known :
      (rule : Value) (path : String)
      → validate_rule ids kinds rule path ≡ []
      → refers_known ids rule ≡ true
  unfolding validate_rule
  validate_rule-known (obj fs) path h =
      let (before, action) = nil-append _ _ h in
      validate_recipe_action-known ids (obj fs) (lookup "action" fs) (at_field path "action") refl
        action
  validate_rule-known undefined path h = cc
  validate_rule-known null path h = cc
  validate_rule-known (bool b) path h = cc
  validate_rule-known (num n) path h = cc
  validate_rule-known (str s) path h = cc
  validate_rule-known (arr vs) path h = cc

  rules_from-known :
      (path : String) (left : ℕ) (vs : List Value) (n : ℕ)
      → length vs ≤ left
      → rules_from ids kinds path left vs n ≡ []
      → all (refers_known ids) vs ≡ true
  rules_from-known path left [] n few h = refl
  rules_from-known path zero (v ∷ vs) n few h = absurd (omega arith)
  rules_from-known path (suc left) (v ∷ vs) n few h =
      let (first, others) =
        nil-append (validate_rule ids kinds v (indexed path n))
          (rules_from ids kinds path left vs (n + 1)) h in
      let one = validate_rule-known v (indexed path n) first in
      let rest = rules_from-known path left vs (n + 1) (omega arith) others in rw (one, rest) refl

  rules_errors-AreRules :
      (path : String) (v : Value) → rules_errors ids kinds path v ≡ [] → AreRules ids v
  rules_errors-AreRules path (arr (element v vs)) h =
      let all_rules = v ∷ items vs in
      let many = path ∷ " must contain at most 32 items" ∷ [] in
      let serial = path ∷ " must contain exactly one serial action" ∷ [] in
      let (before, one) = nil-append _ (unless (count_serial all_rules == 1) serial) h in
      let (few, each) =
        nil-append (unless (leb (length all_rules) 32) many)
          (rules_from ids kinds path 32 all_rules 0) before in
      (
        (==_iff (count_serial all_rules) 1).0 (unless-nil (count_serial all_rules == 1) serial one),
        rules_from-known path 32 all_rules 0
            (leb→le (length all_rules) 32 (unless-nil (leb (length all_rules) 32) many few)) each,
      )
  rules_errors-AreRules path (arr no_element) h = cc
  rules_errors-AreRules path undefined h = cc
  rules_errors-AreRules path null h = cc
  rules_errors-AreRules path (bool b) h = cc
  rules_errors-AreRules path (num n) h = cc
  rules_errors-AreRules path (str s) h = cc
  rules_errors-AreRules path (obj fs) h = cc

-- Kinds are names that occur once, and none is derived from kinds.
abbrev pub AreKinds : Value → Type 0
AreKinds v =
    (all is_kind_selector (elements v) ≡ true)
    × (all_new str_eq [] (map kind_of (elements v)) ≡ true)

kind_selectors-AreKinds : (path : String) (v : Value) → (kind_selectors path v).0 ≡ [] → AreKinds v
kind_selectors-AreKinds path (arr vs) h =
    let many = path ∷ " must contain at most 32 items" ∷ [] in
    let (before, each) = nil-append _ (kind_selectors_from path 32 (items vs) 0 []).0 h in
    let (some_item, few) = nil-append _ (unless (leb (length (items vs)) 32) many) before in
    kind_selectors_from-valid path 32 (items vs) 0 []
      (leb→le (length (items vs)) 32 (unless-nil (leb (length (items vs)) 32) many few)) each
kind_selectors-AreKinds path undefined h = cc
kind_selectors-AreKinds path null h = cc
kind_selectors-AreKinds path (bool b) h = cc
kind_selectors-AreKinds path (num n) h = cc
kind_selectors-AreKinds path (str s) h = cc
kind_selectors-AreKinds path (obj fs) h = cc

-- A resolver that is accepted has exactly one serial rule; every rule with fixed options refers to
-- one of the value builders; its kinds are names that occur once; and no kind is selected by kinds.
pub validate_recipe_resolver-valid :
    (ids : List String) (fs : Properties) (path : String) (b : Budget)
    → (validate_recipe_resolver ids (obj fs) path b).0 ≡ []
    → AreRules ids (lookup "rules" fs) × AreKinds (lookup "kindSelectors" fs)
unfolding validate_recipe_resolver
validate_recipe_resolver-valid ids fs path b h =
    let kinds = kind_selectors (at_field path "kindSelectors") (lookup "kindSelectors" fs) in
    let (own, more) = nil-append _ _ h in
    let (identity, rest) = nil-append _ (resolver_rules ids path fs) more in
    let (before, rules) =
      nil-append _ (rules_errors ids kinds.1 (at_field path "rules") (lookup "rules" fs)) rest in
    let (attributes, selectors) = nil-append _ kinds.0 before in
    (
      rules_errors-AreRules ids kinds.1 (at_field path "rules") (lookup "rules" fs) rules,
      kind_selectors-AreKinds (at_field path "kindSelectors") (lookup "kindSelectors" fs) selectors,
    )

-- ===== src/Stats/Qualified/Partition.antt =====
-- The pairs that selectors assign, item by item.
use autoform_panel.Stats.Distinct.{
  fresh-Fits, all_new, mark-fresh, nil-append, keys, Fits, rev_onto,
}
use autoform_panel.Stats.Qualified.{
  flat_summaries, groups, with_assigned, assigned_in, item_selectors, check_item, Seen,
  check_selectors, singular, mark_pair, add_pair, check_selector, Selected, Collection,
}
use autoform_panel.Js.Value.{
  null, undefined, obj, str, num, bool, items, arr, is_plain_object, get, Value,
}
use autoform_panel.Stats.{
  indexed, Marks, glue, allow_only, max_result_key_length, at_field, text_or_empty, same_pair, trim,
  elements, among, bounded_text, Pair,
}
use autoform_panel.Prelude.{
  suc, ap, ◌∙◌, ℕ, String, ◌≡◌, refl, inl, inr, Bool, true, false, ◌&&◌, ◌||◌, List, [], ◌∷◌, ◌++◌,
  arith, str_eq, Bool-cases,
}

-- The pair that a selector names.
abbrev pub selector_pair : Value → Pair
selector_pair v = record {
  profile_id = trim (text_or_empty (get v "profileId"));
  key = trim (text_or_empty (get v "resultKey"));
}

abbrev pub selector_pairs : List Value → List Pair
selector_pairs [] = []
selector_pairs (v ∷ vs) = selector_pair v ∷ selector_pairs vs

-- The pairs of all items of a collection, in their order.
abbrev pub pairs_in : List Value → List Pair
pairs_in [] = []
pairs_in (item ∷ items) = selector_pairs (elements (get item "selectors")) ++ pairs_in items

abbrev pub all_declared : List Pair → List Pair → Bool
all_declared declared [] = true
all_declared declared (p ∷ ps) = among same_pair declared p && all_declared declared ps

pub all_declared-append :
    (declared ps qs : List Pair)
    → all_declared declared (ps ++ qs) ≡ (all_declared declared ps && all_declared declared qs)
all_declared-append declared [] qs = refl
all_declared-append declared (p ∷ ps) qs = ground (arith, all_declared-append declared ps qs)

pub rev_onto-append :
    (ps qs seen : List Pair) → rev_onto (ps ++ qs) seen ≡ rev_onto qs (rev_onto ps seen)
rev_onto-append [] qs seen = refl
rev_onto-append (p ∷ ps) qs seen = rev_onto-append ps qs (p ∷ seen)

pub bounded_text-nil :
    (v : Value) (path : String) (limit : ℕ)
    → (bounded_text v path limit).1 ≡ []
    → ((bounded_text v path limit).0 ≡ trim (text_or_empty v))
      × (str_eq (bounded_text v path limit).0 "" ≡ false)
unfolding bounded_text
bounded_text-nil v path limit h = ground arith

module _ (declared : List Pair) (collection : Collection) (path : String) (n : ℕ) where
  -- The pair, declared and new, has been added to the marks.
  abbrev Adds : Pair → Selected → Selected → Type 0
  Adds pair s last =
      (among same_pair declared pair ≡ true)
      × (among same_pair (keys s.marks.assigned) pair ≡ false)
      × (last.marks ≡ record { own = pair ∷ s.marks.own; assigned = (pair, n) ∷ s.marks.assigned })

  add_pair-nil :
      (errors : List String) (pair : Pair) (s : Selected)
      → (add_pair declared collection path n errors pair s).0 ≡ []
      → errors ≡ []
  add_pair-nil errors pair s h =
      elim (Bool-cases (str_eq pair.profile_id "" || str_eq pair.key "")) [
        | inl e ↦ rw e at h
        | inr e ↦
            (nil-append errors (mark_pair declared collection path n pair s.marks).0 (rw e at h)).0
      ]

  add_pair-Adds :
      (errors : List String) (pair : Pair) (s : Selected)
      → Fits same_pair n s.marks
      → str_eq pair.profile_id "" ≡ false
      → str_eq pair.key "" ≡ false
      → (add_pair declared collection path n errors pair s).0 ≡ []
      → Adds pair s (add_pair declared collection path n errors pair s).1
  add_pair-Adds errors pair s fits a b h =
      let given : (str_eq pair.profile_id "" || str_eq pair.key "") ≡ false =
        ground (arith, a, b) in
      let (quiet, more) =
        nil-append errors (mark_pair declared collection path n pair s.marks).0 (rw given at h) in
      rw given (
        mark-fresh same_pair (among same_pair declared pair) path
          " pair must be unique within its item"
          (glue (" pair must not appear in more than one " ∷ singular collection ∷ []))
          " must reference a gradeMap resultKey on the selected pickerVisible profile" n pair
          s.marks fits more)

  check_selector-Adds :
      (selector : Value) (s : Selected)
      → Fits same_pair n s.marks
      → (check_selector declared collection path n selector s).0 ≡ []
      → Adds (selector_pair selector) s (check_selector declared collection path n selector s).1
  check_selector-Adds selector s fits h = elim (Bool-cases (is_plain_object selector)) [
    | inr e ↦ let broken = rw e at h in cc
    | inl e ↦
        let first =
          bounded_text (get selector "profileId") (at_field path "profileId")
            max_result_key_length in
        let second =
          bounded_text (get selector "resultKey") (at_field path "resultKey")
            max_result_key_length in
        let fields = allow_only selector ("profileId" ∷ "resultKey" ∷ []) path in
        let pair : Pair = record { profile_id = first.0; key = second.0 } in
        let added = add_pair-nil (fields ++ first.1 ++ second.1) pair s (rw e at h) in
        let (front, key_quiet) = nil-append (fields ++ first.1) second.1 added in
        let (allowed, id_quiet) = nil-append fields first.1 front in
        let (id_same, id_given) =
          bounded_text-nil (get selector "profileId") (at_field path "profileId")
            max_result_key_length id_quiet in
        let (key_same, key_given) =
          bounded_text-nil (get selector "resultKey") (at_field path "resultKey")
            max_result_key_length key_quiet in
        rw e (
          rw (← id_same, ← key_same)
            (add_pair-Adds (fields ++ first.1 ++ second.1) pair s fits id_given key_given
              (rw e at h)))
  ]

assigned_in-with_assigned :
    (collection : Collection) (assigned : List (Pair × ℕ)) (seen : Seen)
    → assigned_in collection (with_assigned collection assigned seen) ≡ assigned
assigned_in-with_assigned groups assigned seen = refl
assigned_in-with_assigned flat_summaries assigned seen = refl

module _ (declared : List Pair) (collection : Collection) where
  -- The pairs are declared and new, and exactly they have been assigned.
  abbrev pub AddsAll : ℕ → List Pair → List (Pair × ℕ) → Marks Pair → Type 0
  AddsAll n ps assigned last =
      (all_declared declared ps ≡ true)
      × (all_new same_pair (keys assigned) ps ≡ true)
      × (keys last.assigned ≡ rev_onto ps (keys assigned))
      × Fits same_pair n last

  check_selectors-AddsAll :
      (path : String) (n i : ℕ) (selectors : List Value) (s : Selected)
      → Fits same_pair n s.marks
      → (check_selectors declared collection path n i selectors s).0 ≡ []
      → AddsAll n
          (selector_pairs selectors)
          s.marks.assigned
          (check_selectors declared collection path n i selectors s).1.marks
  check_selectors-AddsAll path n i [] s fits h = (refl, refl, refl, fits)
  check_selectors-AddsAll path n i (v ∷ vs) s fits h =
      let first = check_selector declared collection (indexed path i) n v s in
      let (quiet, rest) =
        nil-append first.0 (check_selectors declared collection path n (suc i) vs first.1).0 h in
      let (known, new, marks) =
        check_selector-Adds declared collection (indexed path i) n v s fits quiet in
      let fits₁ : Fits same_pair n first.1.marks =
        rw marks (fresh-Fits same_pair n (selector_pair v) s.marks fits) in
      let (all_known, all_fresh, all_keys, last) =
        check_selectors-AddsAll path n (suc i) vs first.1 fits₁ rest in
      let keys₁ = ap (λ (m : Marks Pair). keys m.assigned) marks in
      (
        ground (arith, known, all_known),
        ground (arith, new, (rw keys₁ at all_fresh)),
        all_keys ∙ ap (rev_onto (selector_pairs vs)) keys₁,
        last,
      )

  item_selectors-AddsAll :
      (path : String) (n : ℕ) (v : Value) (assigned : List (Pair × ℕ))
      → Fits same_pair n (record { own = []; assigned = assigned })
      → (item_selectors declared collection path n v assigned).0 ≡ []
      → AddsAll n
          (selector_pairs (elements v))
          assigned
          (item_selectors declared collection path n v assigned).1.marks
  item_selectors-AddsAll path n (arr vs) assigned fits h =
      let start : Selected = record {
        marks = record { own = []; assigned = assigned };
        result_keys = [];
      } in
      let (sizes, quiet) =
        nil-append _ (check_selectors declared collection path n 0 (items vs) start).0 h in
      check_selectors-AddsAll path n 0 (items vs) start fits quiet
  item_selectors-AddsAll path n undefined assigned fits h = cc
  item_selectors-AddsAll path n null assigned fits h = cc
  item_selectors-AddsAll path n (bool b) assigned fits h = cc
  item_selectors-AddsAll path n (num b) assigned fits h = cc
  item_selectors-AddsAll path n (str b) assigned fits h = cc
  item_selectors-AddsAll path n (obj b) assigned fits h = cc

  -- The marks with which the next item begins.
  abbrev pub begin : List (Pair × ℕ) → Marks Pair
  begin assigned = record { own = []; assigned = assigned }

  pub check_item-AddsAll :
      (path : String) (n : ℕ) (item : Value) (seen : Seen)
      → Fits same_pair n (begin (assigned_in collection seen))
      → (check_item declared collection path n item seen).0 ≡ []
      → (last : Marks Pair) × (assigned_in collection
            (check_item declared collection path n item seen).1
          ≡ last.assigned)
        × AddsAll n
            (selector_pairs (elements (get item "selectors")))
            (assigned_in collection seen)
            last
  unfolding check_item
  check_item-AddsAll path n item seen fits h = elim (Bool-cases (is_plain_object item)) [
    | inr e ↦ let broken = rw e at h in cc
    | inl e ↦
        let selected =
          item_selectors declared collection (at_field path "selectors") n (get item "selectors")
            (assigned_in collection seen) in
        let (front, legacy_quiet) = nil-append _ _ (rw e at h) in
        let (before, quiet) = nil-append _ selected.0 front in
        (
          selected.1.marks,
          rw e (assigned_in-with_assigned collection selected.1.marks.assigned _),
          item_selectors-AddsAll (at_field path "selectors") n (get item "selectors")
              (assigned_in collection seen) fits quiet,
        )
  ]

-- ===== src/Stats/Qualified/Valid.antt =====
-- The pairs of a whole summary.
use autoform_panel.Js.Value.{null, undefined, arr, str, num}
use autoform_panel.Stats.Qualified.Partition.{
  all_declared-append, check_item-AddsAll, selector_pairs, pairs_in, all_declared, begin,
}
use autoform_panel.Stats.Distinct.{all_new-append, Fits-next, nil-append, keys, all_new, Fits}
use autoform_panel.Stats.{
  bool, obj, visible_result_pairs, at_field, get, elements, indexed, same_pair, Value, Pair,
}
use autoform_panel.Stats.Qualified.{
  flat_summaries, is_plain_object, validate_daily_stats_v2, item_errors, groups, check_item,
  check_items, assigned_in, Seen, Collection,
}
use autoform_panel.Prelude.{
  ap, ◌∙◌, inl, inr, Bool-cases, ℕ, suc, String, ◌≡◌, refl, true, List, [], ◌∷◌, arith,
}

module _ (declared : List Pair) (collection : Collection) where
  check_items-AddsAll :
      (path : String) (n : ℕ) (items : List Value) (seen : Seen)
      → Fits same_pair n (begin declared collection (assigned_in collection seen))
      → (check_items declared collection path n items seen).0 ≡ []
      → (all_declared declared (pairs_in items) ≡ true)
        × (all_new same_pair (keys (assigned_in collection seen)) (pairs_in items) ≡ true)
  check_items-AddsAll path n [] seen fits h = (refl, refl)
  check_items-AddsAll path n (item ∷ items) seen fits h =
      let first = check_item declared collection (indexed path n) n item seen in
      let (quiet, rest) = nil-append first.0 _ h in
      let own = selector_pairs (elements (get item "selectors")) in
      let (last, same, (known, new, all_keys, fits₁)) =
        check_item-AddsAll declared collection (indexed path n) n item seen fits quiet in
      let fits₂ : Fits same_pair (suc n)
          (begin declared collection (assigned_in collection first.1)) =
        rw same (Fits-next same_pair n last fits₁) in
      let (all_known, all_fresh) = check_items-AddsAll path (suc n) items first.1 fits₂ rest in
      (
        ground (arith, known, all_known, all_declared-append declared own (pairs_in items)),
        ground (
          arith,
          new,
          all_new-append same_pair (keys (assigned_in collection seen)) own (pairs_in items),
          (rw (ap keys same ∙ all_keys) at all_fresh),
        ),
      )

no_assignment :
    (collection : Collection) (declared : List Pair)
    → Fits same_pair 0 (begin declared collection [])
no_assignment collection declared k m h = cc

-- The loop over the groups assigns no pair of a flat summary.
check_item-flat_pairs :
    (declared : List Pair) (path : String) (n : ℕ) (item : Value) (seen : Seen)
    → (check_item declared groups path n item seen).1.flat_pairs ≡ seen.flat_pairs
unfolding check_item
check_item-flat_pairs declared path n item seen = elim (Bool-cases (is_plain_object item)) [
  | inl e ↦ rw e refl
  | inr e ↦ rw e refl
]

check_items-flat_pairs :
    (declared : List Pair) (path : String) (n : ℕ) (items : List Value) (seen : Seen)
    → (check_items declared groups path n items seen).1.flat_pairs ≡ seen.flat_pairs
check_items-flat_pairs declared path n [] seen = refl
check_items-flat_pairs declared path n (item ∷ items) seen =
    check_items-flat_pairs declared path (suc n) items
      (check_item declared groups (indexed path n) n item seen).1
    ∙ check_item-flat_pairs declared (indexed path n) n item seen

-- The pairs of a collection are declared, and none occurs twice.
abbrev pub IsPartition : List Pair → List Value → Type 0
IsPartition declared items =
    (all_declared declared (pairs_in items) ≡ true) × (all_new same_pair [] (pairs_in items) ≡ true)

item_errors-IsPartition :
    (declared : List Pair) (root : String) (v : Value)
    → item_errors declared root v ≡ []
    → IsPartition declared (elements (get v "groups"))
      × IsPartition declared (elements (get v "flatSummaries"))
unfolding item_errors
item_errors-IsPartition declared root v h =
    let start : Seen = record { ids = []; group_pairs = []; flat_pairs = []; legacy = [] } in
    let first =
      check_items declared groups (at_field root "groups") 0 (elements (get v "groups")) start in
    let (quiet, rest) = nil-append first.0 _ h in
    let none_yet =
      check_items-flat_pairs declared (at_field root "groups") 0 (elements (get v "groups"))
        start in
    (
      check_items-AddsAll declared groups (at_field root "groups") 0 (elements (get v "groups"))
          start (no_assignment groups declared) quiet,
      let fits : Fits same_pair 0 (begin declared flat_summaries first.1.flat_pairs) =
            rw none_yet (no_assignment flat_summaries declared) in
          let (known, new) =
            check_items-AddsAll declared flat_summaries (at_field root "flatSummaries") 0
              (elements (get v "flatSummaries")) first.1 fits rest in
          (known, rw none_yet at new),
    )

-- A summary without errors is a partition in each of its collections: every pair that a selector
-- names is a result of a visible profile, and no pair occurs twice in the groups, nor twice in the
-- flat summaries.
pub validate_daily_stats_v2-IsPartition :
    (v : Value) (profiles : List Value)
    → validate_daily_stats_v2 v profiles ≡ []
    → IsPartition (visible_result_pairs profiles) (elements (get v "groups"))
      × IsPartition (visible_result_pairs profiles) (elements (get v "flatSummaries"))
unfolding validate_daily_stats_v2
validate_daily_stats_v2-IsPartition undefined profiles h = ((refl, refl), (refl, refl))
validate_daily_stats_v2-IsPartition (obj fs) profiles h =
    let (front, quiet) =
      nil-append _ (item_errors (visible_result_pairs profiles) "dailyStatsV2" (obj fs)) h in
    item_errors-IsPartition (visible_result_pairs profiles) "dailyStatsV2" (obj fs) quiet
validate_daily_stats_v2-IsPartition null profiles h = cc
validate_daily_stats_v2-IsPartition (bool b) profiles h = cc
validate_daily_stats_v2-IsPartition (num b) profiles h = cc
validate_daily_stats_v2-IsPartition (str b) profiles h = cc
validate_daily_stats_v2-IsPartition (arr b) profiles h = cc

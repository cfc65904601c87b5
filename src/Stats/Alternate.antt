-- ===== src/Stats/Alternate.antt =====
-- api/daily-stats-alternate.js: attribution of alternate entries to the groups and summaries.
use autoform_panel.Js.Value.{
  undefined, is_str, is_nat, items, get, obj, is_plain_object, contains, arr, Value,
}
use autoform_panel.Stats.{
  glue, unique_entry_pair, unique_item_id, same_pair, mark_id, mark, max_result_key_length,
  max_id_length, allow_only, text_or_empty, bounded_text, at_field, trim, is_empty, is_array,
  indexed, elements, Marks, unless, Pair,
}
use autoform_panel.Stats.Qualified.{
  singular, plural, validate_daily_stats_v2, flat_summaries, groups, Collection,
}
use autoform_panel.Prelude.{
  ℕ, suc, String, Bool, true, false, not, ◌&&◌, ◌||◌, List, [], ◌∷◌, ◌++◌, str_eq, leb,
  if◌then◌else◌, length,
}

abbrev root : String
root = "dailyStatsAlternateEntries"

-- `validateDailyStatsV2` of an object; anything else is missing.
abbrev v2_errors : Value → List Value → List String
v2_errors v profiles =
    if is_plain_object v then validate_daily_stats_v2 v profiles else "dailyStatsV2 is missing" ∷ []

abbrev is_alternate_only : Value → Bool
is_alternate_only item =
    is_array (get item "selectors")
    && is_empty (elements (get item "selectors"))
    && not (str_eq (trim (text_or_empty (get item "id"))) "")

abbrev ids_without_selectors : List Value → List String
ids_without_selectors [] = []
ids_without_selectors (item ∷ items) =
    let rest = ids_without_selectors items in
    if is_alternate_only item then trim (text_or_empty (get item "id")) ∷ rest else rest

-- The flat summaries that have no selectors of their own, of a summary without errors.
abbrev pub alternate_only_ids : List String → Value → List String
alternate_only_ids [] v = ids_without_selectors (elements (get v "flatSummaries"))
alternate_only_ids (e ∷ es) v = []

-- The sets that `validateDailyStatsAlternateEntries` fills.
pub record Seen : Type 0 where
  pub ids : List String
  pub group_pairs : List (Pair × ℕ)
  pub flat_pairs : List (Pair × ℕ)
  pub covered : List String

abbrev assigned_in : Collection → Seen → List (Pair × ℕ)
assigned_in groups seen = seen.group_pairs
assigned_in flat_summaries seen = seen.flat_pairs

abbrev with_assigned : Collection → List (Pair × ℕ) → Seen → Seen
with_assigned groups assigned seen = record seen { group_pairs = assigned }
with_assigned flat_summaries assigned seen = record seen { flat_pairs = assigned }

-- The body of the loop over `item.selectors`.
abbrev check_entry_selector :
    List Value → Collection → String → ℕ → Value → Marks Pair → List String × Marks Pair
check_entry_selector profiles collection path n selector marks =
    if not (is_plain_object selector)
    then (unless false (path ∷ " must be an object" ∷ []), marks)
    else let (profile_id, profile_errors) =
        bounded_text (get selector "profileId") (at_field path "profileId") max_result_key_length in
      let (entry_id, entry_errors) =
        bounded_text (get selector "entryId") (at_field path "entryId") max_result_key_length in
      let errors =
        allow_only selector ("profileId" ∷ "entryId" ∷ []) path ++ profile_errors ++ entry_errors in
      if str_eq profile_id "" || str_eq entry_id ""
      then (errors, marks)
      else let pair : Pair = record { profile_id = profile_id; key = entry_id } in
        let (more, after) =
          mark same_pair (unique_entry_pair profiles pair) path
            " pair must be unique within its item"
            (glue (" pair must not appear in more than one " ∷ singular collection ∷ []))
            (glue (
              " must reference exactly one enabled alternate entry on the selected"
              ∷ " pickerVisible profile" ∷ []))
            n pair marks in
        (errors ++ more, after)

abbrev check_entry_selectors :
    List Value → Collection → String → ℕ → ℕ → List Value → Marks Pair → List String × Marks Pair
check_entry_selectors profiles collection path n i [] marks = ([], marks)
check_entry_selectors profiles collection path n i (selector ∷ selectors) marks =
    let (errors, after) =
      check_entry_selector profiles collection (indexed path i) n selector marks in
    let (more, last) = check_entry_selectors profiles collection path n (suc i) selectors after in
    (errors ++ more, last)

-- `coveredAlternateOnlyFlatSummaryIds.add(id)` under its condition
abbrev cover : List String → Collection → String → List Value → List String → List String
cover alternate_only groups id selectors covered = covered
cover alternate_only flat_summaries id selectors covered =
    if not (str_eq id "") && not (is_empty selectors) && contains alternate_only id
    then id ∷ covered
    else covered

abbrev entry_selectors :
    List Value → List String → Collection → String → ℕ → String → Value → Seen → List String × Seen
entry_selectors profiles alternate_only collection path n id (arr vs) seen =
    let (errors, marks) =
      check_entry_selectors profiles collection path n 0 (items vs)
        (record { own = []; assigned = assigned_in collection seen }) in
    (
      unless (not (is_empty (items vs))) (path ∷ " must not be empty" ∷ [])
          ++ unless (leb (length (items vs)) 512) (path ∷ " must contain at most 512 items" ∷ [])
          ++ errors,
      with_assigned collection marks.assigned
          (record seen { covered = cover alternate_only collection id (items vs) seen.covered }),
    )
entry_selectors profiles alternate_only collection path n id _ seen =
    (unless false (path ∷ " must be an array" ∷ []), seen)

-- `validateItem(item, collection, itemIndex)`
unfoldable pub check_entry_item :
    Value → List Value → List String → Collection → String → ℕ → Value → Seen → List String × Seen
check_entry_item v2 profiles alternate_only collection path n item seen =
    if not (is_plain_object item)
    then (unless false (path ∷ " must be an object" ∷ []), seen)
    else let (id, id_errors) = bounded_text (get item "id") (at_field path "id") max_id_length in
      let (twice, ids) =
        mark_id id path ".id must be unique across groups and flatSummaries" seen.ids in
      let (selector_errors, after) =
        entry_selectors profiles alternate_only collection (at_field path "selectors") n id
          (get item "selectors") (record seen { ids = ids }) in
      (
        allow_only item ("id" ∷ "selectors" ∷ []) path
            ++ id_errors
            ++ twice
            ++ unless (str_eq id "" || unique_item_id v2 (plural collection) id)
                (path ∷ ".id must reference a dailyStatsV2 " ∷ singular collection ∷ " id" ∷ [])
            ++ selector_errors,
        after,
      )

abbrev check_entry_items :
    Value
    → List Value
    → List String
    → Collection
    → String
    → ℕ
    → List Value
    → Seen
    → List String × Seen
check_entry_items v2 profiles alternate_only collection path n [] seen = ([], seen)
check_entry_items v2 profiles alternate_only collection path n (item ∷ items) seen =
    let (errors, after) =
      check_entry_item v2 profiles alternate_only collection (indexed path n) n item seen in
    let (more, last) =
      check_entry_items v2 profiles alternate_only collection path (suc n) items after in
    (errors ++ more, last)

-- `quote` is JSON.stringify of a text.
module _ (quote : String → String) where
  abbrev uncovered : List String → List String → List String
  uncovered covered [] = []
  uncovered covered (id ∷ ids) =
      unless (contains covered id) (
        root
        ∷ ".flatSummaries must provide non-empty selectors for dailyStatsV2 flat summary "
        ∷ quote id
        ∷ " because its selectors are empty"
        ∷ [])
      ++ uncovered covered ids

  abbrev entry_errors : Value → List Value → List String → Value → List String
  entry_errors v2 profiles alternate_only v =
      let (group_errors, seen) =
        check_entry_items v2 profiles alternate_only groups (at_field root "groups") 0
          (elements (get v "groups"))
          (record { ids = []; group_pairs = []; flat_pairs = []; covered = [] }) in
      let (flat_errors, last) =
        check_entry_items v2 profiles alternate_only flat_summaries (at_field root "flatSummaries")
          0 (elements (get v "flatSummaries")) seen in
      group_errors ++ flat_errors ++ uncovered last.covered alternate_only

  abbrev no_errors : List String → Bool
  no_errors [] = true
  no_errors (e ∷ es) = false

  -- validateDailyStatsAlternateEntries
  unfoldable pub validate_alternate_entries : Value → Value → List Value → List String
  validate_alternate_entries undefined v2 profiles =
      uncovered [] (alternate_only_ids (v2_errors v2 profiles) v2)
  validate_alternate_entries (obj fs) v2 profiles =
      let v = obj fs in
      let given = get v "groups" in
      let flat = get v "flatSummaries" in
      allow_only v ("version" ∷ "scope" ∷ "groups" ∷ "flatSummaries" ∷ []) root
      ++ unless (is_nat (get v "version") 1) (root ∷ ".version must equal 1" ∷ [])
      ++ unless (is_str (get v "scope") "all_profiles")
          (root ∷ ".scope must equal all_profiles" ∷ [])
      ++ unless (is_array given) (root ∷ ".groups must be an array" ∷ [])
      ++ unless (is_array flat) (root ∷ ".flatSummaries must be an array" ∷ [])
      ++ unless (leb (length (elements given)) 16)
          (root ∷ ".groups must contain at most 16 items" ∷ [])
      ++ unless (leb (length (elements flat)) 8)
          (root ∷ ".flatSummaries must contain at most 8 items" ∷ [])
      ++ unless (no_errors (v2_errors v2 profiles)) (root ∷ " requires a valid dailyStatsV2" ∷ [])
      ++ entry_errors v2 profiles (alternate_only_ids (v2_errors v2 profiles) v2) v
  validate_alternate_entries _ v2 profiles = "dailyStatsAlternateEntries must be an object" ∷ []

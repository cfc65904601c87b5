-- ===== src/Stats/Qualified.antt =====
-- api/daily-stats-v2.js: groups and flat summaries of pairs of a profile and a result.
pub mod Partition
pub mod Valid
use autoform_panel.Stats.Legacy.{shown_errors}
use autoform_panel.Js.Value.{
  undefined, is_str, is_nat, contains, items, get, obj, is_plain_object, arr, Value,
}
use autoform_panel.Stats.{
  visible_result_pairs, is_array, glue, among, same_pair, max_result_keys, mark_id, max_id_length,
  mark, is_empty, allow_only, unless, max_result_key_length, elements, indexed, bounded_text,
  at_field, Pair, Marks,
}
use autoform_panel.Prelude.{
  ℕ, suc, String, Bool, true, false, not, ◌&&◌, ◌||◌, List, [], ◌∷◌, ◌++◌, str_eq, leb,
  if◌then◌else◌, length,
}

abbrev root : String
root = "dailyStatsV2"

-- The two collections, which have separate assignments of pairs.
pub data Collection : Type 0 where
  groups flat_summaries : Collection

abbrev pub is_group : Collection → Bool
is_group groups = true
is_group flat_summaries = false

abbrev pub singular : Collection → String
singular groups = "group"
singular flat_summaries = "flat summary"

abbrev pub plural : Collection → String
plural groups = "groups"
plural flat_summaries = "flatSummaries"

abbrev item_fields : Collection → List String
item_fields groups =
    "id" ∷ "label" ∷ "labelI18n" ∷ "uiColor" ∷ "selectors" ∷ "legacyResultKeys" ∷ []
item_fields flat_summaries = "id" ∷ "label" ∷ "labelI18n" ∷ "uiColor" ∷ "selectors" ∷ []

-- What the loop over the selectors of an item fills.
pub record Selected : Type 0 where
  pub marks : Marks Pair
  pub result_keys : List String

abbrev pub mark_pair :
    List Pair → Collection → String → ℕ → Pair → Marks Pair → List String × Marks Pair
mark_pair declared collection path n pair marks =
    mark same_pair (among same_pair declared pair) path " pair must be unique within its item"
      (glue (" pair must not appear in more than one " ∷ singular collection ∷ []))
      " must reference a gradeMap resultKey on the selected pickerVisible profile" n pair marks

-- The pair of the texts of a selector that has these errors, unless one of the texts is missing.
abbrev pub add_pair :
    List Pair → Collection → String → ℕ → List String → Pair → Selected → List String × Selected
add_pair declared collection path n errors pair s =
    if str_eq pair.profile_id "" || str_eq pair.key ""
    then (errors, s)
    else let (more, marks) = mark_pair declared collection path n pair s.marks in
      (errors ++ more, record { marks = marks; result_keys = pair.key ∷ s.result_keys })

-- The body of the loop over `item.selectors`.
abbrev pub check_selector :
    List Pair → Collection → String → ℕ → Value → Selected → List String × Selected
check_selector declared collection path n selector s =
    if not (is_plain_object selector)
    then (unless false (path ∷ " must be an object" ∷ []), s)
    else let (profile_id, profile_errors) =
        bounded_text (get selector "profileId") (at_field path "profileId") max_result_key_length in
      let (result_key, key_errors) =
        bounded_text (get selector "resultKey") (at_field path "resultKey") max_result_key_length in
      add_pair declared collection path n
        (allow_only selector ("profileId" ∷ "resultKey" ∷ []) path ++ profile_errors ++ key_errors)
        (record { profile_id = profile_id; key = result_key }) s

abbrev pub check_selectors :
    List Pair → Collection → String → ℕ → ℕ → List Value → Selected → List String × Selected
check_selectors declared collection path n i [] s = ([], s)
check_selectors declared collection path n i (selector ∷ selectors) s =
    let (errors, after) = check_selector declared collection (indexed path i) n selector s in
    let (more, last) = check_selectors declared collection path n (suc i) selectors after in
    (errors ++ more, last)

abbrev pub item_selectors :
    List Pair → Collection → String → ℕ → Value → List (Pair × ℕ) → List String × Selected
item_selectors declared collection path n (arr vs) assigned =
    let (errors, s) =
      check_selectors declared collection path n 0 (items vs)
        (record { marks = record { own = []; assigned = assigned }; result_keys = [] }) in
    (
      unless (not (is_group collection && is_empty (items vs))) (path ∷ " must not be empty" ∷ [])
          ++ unless (leb (length (items vs)) 512) (path ∷ " must contain at most 512 items" ∷ [])
          ++ errors,
      s,
    )
item_selectors declared collection path n _ assigned = (
  unless false (path ∷ " must be an array" ∷ []),
  record { marks = record { own = []; assigned = assigned }; result_keys = [] },
)

-- The body of the loop over `item.legacyResultKeys`.
abbrev check_legacy_key :
    List String → String → ℕ → Value → Marks String → List String × Marks String
check_legacy_key selected path n raw marks =
    let (key, errors) = bounded_text raw path max_result_key_length in
    if str_eq key ""
    then (errors, marks)
    else let (more, after) =
        mark str_eq true path " must be unique within its group"
          " must not appear in more than one group" "" n key marks in
      (
        errors
            ++ unless (contains selected key)
                (path ∷ " must match a resultKey selected by its group" ∷ [])
            ++ more,
        after,
      )

abbrev check_legacy_keys :
    List String → String → ℕ → ℕ → List Value → Marks String → List String × Marks String
check_legacy_keys selected path n i [] marks = ([], marks)
check_legacy_keys selected path n i (raw ∷ raws) marks =
    let (errors, after) = check_legacy_key selected (indexed path i) n raw marks in
    let (more, last) = check_legacy_keys selected path n (suc i) raws after in
    (errors ++ more, last)

abbrev legacy_keys :
    List String → String → ℕ → Value → List (String × ℕ) → List String × List (String × ℕ)
legacy_keys selected path n undefined assigned = ([], assigned)
legacy_keys selected path n (arr vs) assigned =
    let (errors, marks) =
      check_legacy_keys selected path n 0 (items vs) (record { own = []; assigned = assigned }) in
    (
      unless (not (is_empty (items vs))) (path ∷ " must not be empty" ∷ [])
          ++ unless (leb (length (items vs)) max_result_keys)
              (path ∷ " must contain at most 128 items" ∷ [])
          ++ errors,
      marks.assigned,
    )
legacy_keys selected path n _ assigned = (unless false (path ∷ " must be an array" ∷ []), assigned)

-- The sets that `validateDailyStatsV2` fills.
pub record Seen : Type 0 where
  pub ids : List String
  pub group_pairs : List (Pair × ℕ)
  pub flat_pairs : List (Pair × ℕ)
  pub legacy : List (String × ℕ)

abbrev pub assigned_in : Collection → Seen → List (Pair × ℕ)
assigned_in groups seen = seen.group_pairs
assigned_in flat_summaries seen = seen.flat_pairs

abbrev pub with_assigned : Collection → List (Pair × ℕ) → Seen → Seen
with_assigned groups assigned seen = record seen { group_pairs = assigned }
with_assigned flat_summaries assigned seen = record seen { flat_pairs = assigned }

abbrev group_legacy :
    Collection
    → List String
    → String
    → ℕ
    → Value
    → List (String × ℕ)
    → List String × List (String × ℕ)
group_legacy groups selected path n v assigned = legacy_keys selected path n v assigned
group_legacy flat_summaries selected path n v assigned = ([], assigned)

-- `validateItem(item, collection, itemIndex)`
unfoldable pub check_item : List Pair → Collection → String → ℕ → Value → Seen → List String × Seen
check_item declared collection path n item seen =
    if not (is_plain_object item)
    then (unless false (path ∷ " must be an object" ∷ []), seen)
    else let (id, id_errors) = bounded_text (get item "id") (at_field path "id") max_id_length in
      let (twice, ids) =
        mark_id id path ".id must be unique across groups and flatSummaries" seen.ids in
      let (selector_errors, s) =
        item_selectors declared collection (at_field path "selectors") n (get item "selectors")
          (assigned_in collection seen) in
      let (legacy_errors, legacy) =
        group_legacy collection s.result_keys (at_field path "legacyResultKeys") n
          (get item "legacyResultKeys") seen.legacy in
      (
        allow_only item (item_fields collection) path
            ++ id_errors
            ++ twice
            ++ shown_errors item path
            ++ selector_errors
            ++ legacy_errors,
        with_assigned collection s.marks.assigned (record seen { ids = ids; legacy = legacy }),
      )

abbrev pub check_items :
    List Pair → Collection → String → ℕ → List Value → Seen → List String × Seen
check_items declared collection path n [] seen = ([], seen)
check_items declared collection path n (item ∷ items) seen =
    let (errors, after) = check_item declared collection (indexed path n) n item seen in
    let (more, last) = check_items declared collection path (suc n) items after in
    (errors ++ more, last)

-- The errors of both loops; a collection that is no array has none.
unfoldable pub item_errors : List Pair → String → Value → List String
item_errors declared root v =
    let (group_errors, seen) =
      check_items declared groups (at_field root "groups") 0 (elements (get v "groups"))
        (record { ids = []; group_pairs = []; flat_pairs = []; legacy = [] }) in
    group_errors
    ++ (check_items declared flat_summaries (at_field root "flatSummaries") 0
        (elements (get v "flatSummaries")) seen).0

-- validateDailyStatsV2
unfoldable pub validate_daily_stats_v2 : Value → List Value → List String
validate_daily_stats_v2 undefined profiles = []
validate_daily_stats_v2 (obj fs) profiles =
    let v = obj fs in
    let given = get v "groups" in
    let flat = get v "flatSummaries" in
    allow_only v ("version" ∷ "scope" ∷ "groups" ∷ "flatSummaries" ∷ []) root
    ++ unless (is_nat (get v "version") 2) (root ∷ ".version must equal 2" ∷ [])
    ++ unless (is_str (get v "scope") "all_profiles") (root ∷ ".scope must equal all_profiles" ∷ [])
    ++ unless (is_array given) (root ∷ ".groups must be an array" ∷ [])
    ++ unless (is_array flat) (root ∷ ".flatSummaries must be an array" ∷ [])
    ++ unless (not (is_array given && is_empty (elements given)))
        (root ∷ ".groups must not be empty" ∷ [])
    ++ unless (leb (length (elements given)) 16)
        (root ∷ ".groups must contain at most 16 items" ∷ [])
    ++ unless (leb (length (elements flat)) 8)
        (root ∷ ".flatSummaries must contain at most 8 items" ∷ [])
    ++ item_errors (visible_result_pairs profiles) root v
validate_daily_stats_v2 _ profiles = "dailyStatsV2 must be an object" ∷ []

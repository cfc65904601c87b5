-- ===== src/Stats/Legacy.antt =====
-- api/daily-stats-v1.js: the groups of result keys.
pub mod Valid
use autoform_panel.Stats.{
  visible_result_keys, max_result_keys, is_empty, is_color, mark_id, label_i18n, max_label_length,
  max_id_length, mark, at_field, unless, max_result_key_length, allow_only, indexed, bounded_text,
  Marks,
}
use autoform_panel.Js.Value.{
  undefined, contains, is_str, items, get, obj, is_plain_object, arr, Value,
}
use autoform_panel.Prelude.{
  ℕ, suc, String, false, not, List, [], ◌∷◌, ◌++◌, str_eq, leb, if◌then◌else◌, length,
}

abbrev root : String
root = "dailyStats"

abbrev group_fields : List String
group_fields = "id" ∷ "label" ∷ "labelI18n" ∷ "uiColor" ∷ "resultKeys" ∷ []

-- The body of the loop over `group.resultKeys`.
abbrev pub check_key : List String → String → ℕ → Value → Marks String → List String × Marks String
check_key declared path n raw marks =
    let (key, errors) = bounded_text raw path max_result_key_length in
    if str_eq key ""
    then (errors, marks)
    else let (more, after) =
        mark str_eq (contains declared key) path " must be unique within its group"
          " must not appear in more than one group"
          " must be declared by at least one pickerVisible profile gradeMap" n key marks in
      (errors ++ more, after)

abbrev pub check_keys :
    List String → String → ℕ → ℕ → List Value → Marks String → List String × Marks String
check_keys declared path n i [] marks = ([], marks)
check_keys declared path n i (raw ∷ raws) marks =
    let (errors, after) = check_key declared (indexed path i) n raw marks in
    let (more, last) = check_keys declared path n (suc i) raws after in (errors ++ more, last)

-- The sets that `validateDailyStats` fills.
pub record Seen : Type 0 where
  pub ids : List String
  pub assigned : List (String × ℕ)

abbrev pub group_keys :
    List String → String → ℕ → Value → List (String × ℕ) → List String × List (String × ℕ)
group_keys declared path n (arr vs) assigned =
    let (errors, marks) =
      check_keys declared path n 0 (items vs) (record { own = []; assigned = assigned }) in
    (
      unless (not (is_empty (items vs))) (path ∷ " must not be empty" ∷ [])
          ++ unless (leb (length (items vs)) max_result_keys)
              (path ∷ " must contain at most 128 items" ∷ [])
          ++ errors,
      marks.assigned,
    )
group_keys declared path n _ assigned = (unless false (path ∷ " must be an array" ∷ []), assigned)

-- The errors of the fields that groups and summaries share, after their `id`.
abbrev pub shown_errors : Value → String → List String
shown_errors item path =
    (bounded_text (get item "label") (at_field path "label") max_label_length).1
    ++ label_i18n (get item "labelI18n") (at_field path "labelI18n")
    ++ unless (is_color (get item "uiColor"))
        (path ∷ ".uiColor must be a six-digit #RRGGBB color" ∷ [])

-- The body of the loop over `value.groups`.
abbrev pub check_group : List String → String → ℕ → Value → Seen → List String × Seen
check_group declared path n group seen =
    if not (is_plain_object group)
    then (unless false (path ∷ " must be an object" ∷ []), seen)
    else let (id, id_errors) = bounded_text (get group "id") (at_field path "id") max_id_length in
      let (twice, ids) = mark_id id path ".id must be unique" seen.ids in
      let (key_errors, assigned) =
        group_keys declared (at_field path "resultKeys") n (get group "resultKeys") seen.assigned in
      (
        allow_only group group_fields path
            ++ id_errors
            ++ twice
            ++ shown_errors group path
            ++ key_errors,
        record { ids = ids; assigned = assigned },
      )

abbrev pub check_groups : List String → String → ℕ → List Value → Seen → List String × Seen
check_groups declared path n [] seen = ([], seen)
check_groups declared path n (group ∷ groups) seen =
    let (errors, after) = check_group declared (indexed path n) n group seen in
    let (more, last) = check_groups declared path (suc n) groups after in (errors ++ more, last)

abbrev pub group_errors : Value → List Value → List String
group_errors (arr vs) profiles =
    unless (not (is_empty (items vs))) ("dailyStats.groups must not be empty" ∷ [])
    ++ unless (leb (length (items vs)) 16) ("dailyStats.groups must contain at most 16 items" ∷ [])
    ++ (check_groups (visible_result_keys profiles) "dailyStats.groups" 0 (items vs)
        (record { ids = []; assigned = [] })).0
group_errors _ profiles = "dailyStats.groups must be an array" ∷ []

-- validateDailyStats
unfoldable pub validate_daily_stats : Value → List Value → List String
validate_daily_stats undefined profiles = []
validate_daily_stats (obj fs) profiles =
    allow_only (obj fs) ("scope" ∷ "groups" ∷ []) root
    ++ unless (is_str (get (obj fs) "scope") "all_profiles")
        ("dailyStats.scope must equal all_profiles" ∷ [])
    ++ group_errors (get (obj fs) "groups") profiles
validate_daily_stats _ profiles = "dailyStats must be an object" ∷ []

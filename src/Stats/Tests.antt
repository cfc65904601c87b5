-- ===== src/Stats/Tests.antt =====
-- Concrete summaries.
use autoform_panel.Stats.Distinct.{all_new}
use autoform_panel.Stats.Legacy.Valid.{validate_daily_stats-all_new, keys_in, all_visible}
use autoform_panel.Js.Text.{trim_start}
use autoform_panel.Stats.{
  is_color, unique_entry_pair, unique_item_id, visible_result_keys, label_i18n, bounded_text,
  allow_only, mark, elements, visible_result_pairs,
}
use autoform_panel.Stats.Qualified.{check_item, item_errors, validate_daily_stats_v2}
use autoform_panel.Stats.Legacy.{validate_daily_stats}
use autoform_panel.Stats.Alternate.{check_entry_item, validate_alternate_entries}
use autoform_panel.Js.Value.{get, bool, str, nat, from_list, undefined, object, arr, Value}
use autoform_panel.Stats.Qualified.Valid.{validate_daily_stats_v2-IsPartition, IsPartition}
use autoform_panel.Prelude.{str_eq, String, ◌≡◌, refl, true, List, [], ◌∷◌}
use autoform_panel.Js.Text.{trim_start, trim_end, numeral, trim}

unfoldable daily_stats : Unit {0}
unfolding validate_daily_stats validate_daily_stats_v2 validate_alternate_entries item_errors
    check_item check_entry_item mark allow_only bounded_text label_i18n visible_result_keys
    visible_result_pairs unique_item_id unique_entry_pair is_color numeral trim trim_start trim_end
daily_stats = tt

abbrev profiles : List Value
profiles =
    object (
      ("id", str "press")
      ∷ ("pickerVisible", bool true)
      ∷ ("gradeMap", object (("good", str "A") ∷ ("bad", str "B") ∷ []))
      ∷ [])
    ∷ []

abbrev list_of : List Value → Value
list_of vs = arr (from_list vs)

abbrev select : String → Value
select key = object (("profileId", str "press") ∷ ("resultKey", str key) ∷ [])

abbrev item : String → List Value → Value
item id selectors = object (
    ("id", str id)
    ∷ ("label", str "Label")
    ∷ ("uiColor", str "#00ffAA")
    ∷ ("selectors", list_of selectors)
    ∷ [])

abbrev summary : List Value → Value
summary given = object (
    ("version", nat 2)
    ∷ ("scope", str "all_profiles")
    ∷ ("groups", list_of given)
    ∷ ("flatSummaries", list_of (item "flat" (select "good" ∷ []) ∷ []))
    ∷ [])

abbrev two_groups : Value
two_groups = summary (item "a" (select "good" ∷ []) ∷ item "b" (select "bad" ∷ []) ∷ [])

accepted : validate_daily_stats_v2 two_groups profiles ≡ []
unfolding daily_stats
accepted = refl

shared_pair :
    validate_daily_stats_v2
      (summary (item "a" (select "good" ∷ []) ∷ item "b" (select "good" ∷ []) ∷ []))
      profiles
    ≡ "dailyStatsV2.groups[1].selectors[0] pair must not appear in more than one group" ∷ []
unfolding daily_stats
shared_pair = refl

abbrev key_summary : Value
key_summary = object (
    ("scope", str "all_profiles")
    ∷ (
      "groups",
      list_of (
          object (
            ("id", str "a")
            ∷ ("label", str "Label")
            ∷ ("uiColor", str "#00ffAA")
            ∷ ("resultKeys", list_of (str "good" ∷ str "bad" ∷ []))
            ∷ [])
          ∷ []),
    )
    ∷ [])

legacy_accepted : validate_daily_stats key_summary profiles ≡ []
unfolding daily_stats
legacy_accepted = refl

uncovered_summary :
    validate_alternate_entries
      (λ (s : String). s)
      undefined
      (object (
        ("version", nat 2)
        ∷ ("scope", str "all_profiles")
        ∷ ("groups", list_of (item "a" (select "good" ∷ []) ∷ []))
        ∷ ("flatSummaries", list_of (item "flat" [] ∷ []))
        ∷ []))
      profiles
    ≡ "dailyStatsAlternateEntries.flatSummaries must provide non-empty selectors for dailyStatsV2 flat summary flat because its selectors are empty"
      ∷ []
unfolding daily_stats
uncovered_summary = refl

validate_daily_stats_v2-IsPartition_example :
    IsPartition (visible_result_pairs profiles) (elements (get two_groups "groups"))
    × IsPartition (visible_result_pairs profiles) (elements (get two_groups "flatSummaries"))
validate_daily_stats_v2-IsPartition_example =
    validate_daily_stats_v2-IsPartition two_groups profiles accepted

validate_daily_stats-all_new_example :
    (all_visible (visible_result_keys profiles) (keys_in (elements (get key_summary "groups")))
      ≡ true)
    × (all_new str_eq [] (keys_in (elements (get key_summary "groups"))) ≡ true)
validate_daily_stats-all_new_example =
    validate_daily_stats-all_new key_summary profiles legacy_accepted

-- ===== src/Profile/Tests.antt =====
-- Concrete profiles.
use autoform_panel.Profile.Choices.Offered.{check_choice-all_offered, all_offered, values_of}
use autoform_panel.Js.Text.{trim_end, trim_start, trim, numeral}
use autoform_panel.Profile.{require_string, preserve_config, json_equal}
use autoform_panel.Profile.Choices.{check_choice}
use autoform_panel.Stats.Distinct.{all_new}
use autoform_panel.Js.Value.{from_list, arr, str, object, from_pairs, Value, Properties}
use autoform_panel.Prelude.{String, ◌≡◌, refl, true, List, [], ◌∷◌}

unfoldable profile_checks : Unit {0}
unfolding check_choice require_string json_equal preserve_config numeral trim trim_start trim_end
profile_checks = tt

abbrev option_of : String → Value
option_of s = object (("value", str s) ∷ ("label", str s) ∷ [])

abbrev choice_of : List Value → String → Value
choice_of options value = object (
    ("field", str "color")
    ∷ ("kind", str "single")
    ∷ ("options", arr (from_list options))
    ∷ ("value", str value)
    ∷ [])

abbrev two_options : List Value
two_options = option_of "red" ∷ option_of "blue" ∷ []

abbrev quote : Value → String
quote v = "value"

accepted : check_choice quote "choiceFields[0]" (choice_of two_options "blue") ≡ []
unfolding profile_checks
accepted = refl

twice :
    check_choice quote "choiceFields[0]" (choice_of (option_of "red" ∷ option_of "red" ∷ []) "red")
    ≡ "choiceFields[0].options[1].value must be unique" ∷ []
unfolding profile_checks
twice = refl

check_choice-all_offered_example :
    (all_new json_equal [] (values_of two_options) ≡ true)
    × (all_offered (values_of two_options) (str "blue" ∷ []) ≡ true)
check_choice-all_offered_example =
    check_choice-all_offered quote "choiceFields[0]" (choice_of two_options "blue") accepted

abbrev edited : Properties
edited = from_pairs (("displayName", str "New") ∷ ("submit", str "other") ∷ [])

abbrev current_profile : Properties
current_profile = from_pairs (("displayName", str "Old") ∷ ("submit", str "kept") ∷ [])

-- A field `__proto__` of the current profile is lost.
proto_lost :
    preserve_config (object []) (object (("__proto__", object []) ∷ ("id", str "a") ∷ []))
    ≡ object (("id", str "a") ∷ [])
unfolding profile_checks
proto_lost = refl

-- ===== src/Stats/Legacy/Valid.antt =====
-- The result keys of the groups of a summary.
use autoform_panel.Stats.Qualified.Partition.{bounded_text-nil}
use autoform_panel.Stats.Legacy.{
  check_groups, check_group, group_keys, group_errors, check_keys, check_key, validate_daily_stats,
}
use autoform_panel.Js.Value.{
  null, undefined, str, num, bool, obj, items, is_plain_object, get, arr, contains, Value,
}
use autoform_panel.Stats.{
  max_result_key_length, bounded_text, at_field, among, text_or_empty, indexed, visible_result_keys,
  trim, elements, Marks,
}
use autoform_panel.Stats.Distinct.{
  mark-fresh, all_new-append, fresh-Fits, Fits-next, rev_onto, nil-append, keys, all_new, Fits,
}
use autoform_panel.Prelude.{
  ℕ, suc, String, ◌≡◌, refl, sym, ap, ◌∙◌, inl, inr, Bool, true, false, ◌&&◌, List, [], ◌∷◌, ◌++◌,
  arith, str_eq, Bool-cases,
}
use autoform_panel.Stats.Legacy.{Seen}

-- The result keys of a group, and of all groups in their order.
abbrev pub keys_named : List Value → List String
keys_named [] = []
keys_named (v ∷ vs) = trim (text_or_empty v) ∷ keys_named vs

abbrev pub keys_in : List Value → List String
keys_in [] = []
keys_in (group ∷ groups) = keys_named (elements (get group "resultKeys")) ++ keys_in groups

abbrev pub all_visible : List String → List String → Bool
all_visible declared [] = true
all_visible declared (k ∷ ks) = contains declared k && all_visible declared ks

all_visible-append :
    (declared js ks : List String)
    → all_visible declared (js ++ ks) ≡ (all_visible declared js && all_visible declared ks)
all_visible-append declared [] ks = refl
all_visible-append declared (j ∷ js) ks = ground (arith, all_visible-append declared js ks)

module _ (declared : List String) where
  check_key-new :
      (path : String) (n : ℕ) (raw : Value) (marks : Marks String)
      → Fits str_eq n marks
      → (check_key declared path n raw marks).0 ≡ []
      → (contains declared (trim (text_or_empty raw)) ≡ true)
        × (among str_eq (keys marks.assigned) (trim (text_or_empty raw)) ≡ false)
        × ((check_key declared path n raw marks).1 ≡ record {
          own = trim (text_or_empty raw) ∷ marks.own;
          assigned = (trim (text_or_empty raw), n) ∷ marks.assigned;
        })
  check_key-new path n raw marks fits h =
      let text = bounded_text raw path max_result_key_length in
      elim (Bool-cases (str_eq text.0 "")) [
        | inl e ↦
            let (same, given) = bounded_text-nil raw path max_result_key_length (rw e at h) in
            let broken = sym e ∙ given in cc
        | inr e ↦
            let (quiet, more) = nil-append text.1 _ (rw e at h) in
            let (same, given) = bounded_text-nil raw path max_result_key_length quiet in
            rw e (
              rw (← same) (
                mark-fresh str_eq (contains declared text.0) path " must be unique within its group"
                  " must not appear in more than one group"
                  " must be declared by at least one pickerVisible profile gradeMap" n text.0 marks
                  fits more))
      ]

  -- The keys are declared and new, and exactly they have been assigned.
  abbrev AddsKeys : ℕ → List String → List (String × ℕ) → Marks String → Type 0
  AddsKeys n ks assigned last =
      (all_visible declared ks ≡ true)
      × (all_new str_eq (keys assigned) ks ≡ true)
      × (keys last.assigned ≡ rev_onto ks (keys assigned))
      × Fits str_eq n last

  check_keys-AddsKeys :
      (path : String) (n i : ℕ) (raws : List Value) (marks : Marks String)
      → Fits str_eq n marks
      → (check_keys declared path n i raws marks).0 ≡ []
      → AddsKeys n (keys_named raws) marks.assigned (check_keys declared path n i raws marks).1
  check_keys-AddsKeys path n i [] marks fits h = (refl, refl, refl, fits)
  check_keys-AddsKeys path n i (v ∷ vs) marks fits h =
      let first = check_key declared (indexed path i) n v marks in
      let (quiet, rest) = nil-append first.0 _ h in
      let (known, new, after) = check_key-new (indexed path i) n v marks fits quiet in
      let fits₁ : Fits str_eq n first.1 =
        rw after (fresh-Fits str_eq n (trim (text_or_empty v)) marks fits) in
      let (all_known, all_fresh, all_keys, last) =
        check_keys-AddsKeys path n (suc i) vs first.1 fits₁ rest in
      let keys₁ = ap (λ (m : Marks String). keys m.assigned) after in
      (
        ground (arith, known, all_known),
        ground (arith, new, (rw keys₁ at all_fresh)),
        all_keys ∙ ap (rev_onto (keys_named vs)) keys₁,
        last,
      )

  abbrev start : List (String × ℕ) → Marks String
  start assigned = record { own = []; assigned = assigned }

  group_keys-AddsKeys :
      (path : String) (n : ℕ) (v : Value) (assigned : List (String × ℕ))
      → Fits str_eq n (start assigned)
      → (group_keys declared path n v assigned).0 ≡ []
      → (last : Marks String) × ((group_keys declared path n v assigned).1 ≡ last.assigned)
        × AddsKeys n (keys_named (elements v)) assigned last
  group_keys-AddsKeys path n (arr vs) assigned fits h =
      let loop = check_keys declared path n 0 (items vs) (start assigned) in
      let (sizes, quiet) = nil-append _ loop.0 h in
      (loop.1, refl, check_keys-AddsKeys path n 0 (items vs) (start assigned) fits quiet)
  group_keys-AddsKeys path n undefined assigned fits h = cc
  group_keys-AddsKeys path n null assigned fits h = cc
  group_keys-AddsKeys path n (bool b) assigned fits h = cc
  group_keys-AddsKeys path n (num b) assigned fits h = cc
  group_keys-AddsKeys path n (str s) assigned fits h = cc
  group_keys-AddsKeys path n (obj fs) assigned fits h = cc

  check_group-AddsKeys :
      (path : String) (n : ℕ) (group : Value) (seen : Seen)
      → Fits str_eq n (start seen.assigned)
      → (check_group declared path n group seen).0 ≡ []
      → (last : Marks String) × ((check_group declared path n group seen).1.assigned
          ≡ last.assigned)
        × AddsKeys n (keys_named (elements (get group "resultKeys"))) seen.assigned last
  check_group-AddsKeys path n group seen fits h = elim (Bool-cases (is_plain_object group)) [
    | inr e ↦ let broken = rw e at h in cc
    | inl e ↦
        let given = get group "resultKeys" in
        let loop = group_keys declared (at_field path "resultKeys") n given seen.assigned in
        let (front, quiet) = nil-append _ loop.0 (rw e at h) in
        rw e (group_keys-AddsKeys (at_field path "resultKeys") n given seen.assigned fits quiet)
  ]

  check_groups-AddsKeys :
      (path : String) (n : ℕ) (groups : List Value) (seen : Seen)
      → Fits str_eq n (start seen.assigned)
      → (check_groups declared path n groups seen).0 ≡ []
      → (all_visible declared (keys_in groups) ≡ true)
        × (all_new str_eq (keys seen.assigned) (keys_in groups) ≡ true)
  check_groups-AddsKeys path n [] seen fits h = (refl, refl)
  check_groups-AddsKeys path n (group ∷ groups) seen fits h =
      let first = check_group declared (indexed path n) n group seen in
      let (quiet, rest) = nil-append first.0 _ h in
      let own = keys_named (elements (get group "resultKeys")) in
      let (last, same, (known, new, all_keys, fits₁)) =
        check_group-AddsKeys (indexed path n) n group seen fits quiet in
      let fits₂ : Fits str_eq (suc n) (start first.1.assigned) =
        rw same (Fits-next str_eq n last fits₁) in
      let (all_known, all_fresh) = check_groups-AddsKeys path (suc n) groups first.1 fits₂ rest in
      (
        ground (arith, known, all_known, all_visible-append declared own (keys_in groups)),
        ground (
          arith,
          new,
          all_new-append str_eq (keys seen.assigned) own (keys_in groups),
          (rw (ap keys same ∙ all_keys) at all_fresh),
        ),
      )

no_key : (declared : List String) → Fits str_eq 0 (start declared [])
no_key declared k m h = cc

group_errors-nil :
    (v : Value) (profiles : List Value)
    → group_errors v profiles ≡ []
    → (all_visible (visible_result_keys profiles) (keys_in (elements v)) ≡ true)
      × (all_new str_eq [] (keys_in (elements v)) ≡ true)
group_errors-nil (arr vs) profiles h =
    let (sizes, quiet) =
      nil-append _
        (check_groups (visible_result_keys profiles) "dailyStats.groups" 0 (items vs)
          (record { ids = []; assigned = [] })).0
        h in
    check_groups-AddsKeys (visible_result_keys profiles) "dailyStats.groups" 0 (items vs)
      (record { ids = []; assigned = [] }) (no_key (visible_result_keys profiles)) quiet
group_errors-nil undefined profiles h = cc
group_errors-nil null profiles h = cc
group_errors-nil (bool b) profiles h = cc
group_errors-nil (num b) profiles h = cc
group_errors-nil (str s) profiles h = cc
group_errors-nil (obj fs) profiles h = cc

-- In a summary of result keys without errors every key of a group is one of a visible profile, and
-- no key occurs twice, in one group or in two.
pub validate_daily_stats-all_new :
    (v : Value) (profiles : List Value)
    → validate_daily_stats v profiles ≡ []
    → (all_visible (visible_result_keys profiles) (keys_in (elements (get v "groups"))) ≡ true)
      × (all_new str_eq [] (keys_in (elements (get v "groups"))) ≡ true)
unfolding validate_daily_stats
validate_daily_stats-all_new undefined profiles h = (refl, refl)
validate_daily_stats-all_new (obj fs) profiles h =
    group_errors-nil (get (obj fs) "groups") profiles
      (nil-append _ (group_errors (get (obj fs) "groups") profiles) h).1
validate_daily_stats-all_new null profiles h = cc
validate_daily_stats-all_new (bool b) profiles h = cc
validate_daily_stats-all_new (num b) profiles h = cc
validate_daily_stats-all_new (str s) profiles h = cc
validate_daily_stats-all_new (arr vs) profiles h = cc

-- ===== src/Profile/Choices/Offered.antt =====
-- The options and the selection of a choice.
use autoform_panel.Profile.{json_equal}
use autoform_panel.Stats.Distinct.{unless-nil, nil-append, all_new, rev_onto}
use autoform_panel.Profile.Choices.{
  at_field, undeclared, indexed, single_value, option_value, multi_value, is_option, each_declared,
  choice_value, choice_options, check_options, check_option, check_choice,
}
use autoform_panel.Stats.{elements, among}
use autoform_panel.Js.Value.{
  null, undefined, obj, num, items, is_plain_object, bool, arr, str, is_str, get, Value,
}
use autoform_panel.Prelude.{
  ℕ, suc, String, ◌≡◌, refl, sym, ap, ◌∙◌, inl, inr, Bool, true, false, ◌&&◌, ◌||◌, List, [], ◌∷◌,
  arith, if◌then◌else◌, Bool-cases,
}

abbrev pub values_of : List Value → List Value
values_of [] = []
values_of (option ∷ options) = get option "value" ∷ values_of options

-- The values that a choice submits.
abbrev pub selected : Value → List Value
selected choice =
    if is_str (get choice "kind") "multi"
    then elements (get choice "value")
    else if is_str (get choice "value") ""
    then []
    else get choice "value" ∷ []

abbrev pub all_offered : List Value → List Value → Bool
all_offered options [] = true
all_offered options (v ∷ vs) = is_option options v && all_offered options vs

among-rev_onto :
    (vs seen : List Value) (v : Value)
    → among json_equal (rev_onto vs seen) v ≡ (among json_equal vs v || among json_equal seen v)
among-rev_onto [] seen v = refl
among-rev_onto (w ∷ vs) seen v = ground (arith, among-rev_onto vs (w ∷ seen) v)

all_offered-rev_onto :
    (options vs : List Value) → all_offered (rev_onto options []) vs ≡ all_offered options vs
all_offered-rev_onto options [] = refl
all_offered-rev_onto options (v ∷ vs) =
    ground (arith, among-rev_onto options [] v, all_offered-rev_onto options vs)

option_value-new :
    (option : Value) (path : String) (seen : List Value)
    → (option_value option path seen).0 ≡ []
    → (among json_equal seen (get option "value") ≡ false)
      × ((option_value option path seen).1 ≡ get option "value" ∷ seen)
option_value-new option path seen h = ground arith

check_option-new :
    (option : Value) (path : String) (seen : List Value)
    → (check_option option path seen).0 ≡ []
    → (among json_equal seen (get option "value") ≡ false)
      × ((check_option option path seen).1 ≡ get option "value" ∷ seen)
check_option-new option path seen h = elim (Bool-cases (is_plain_object option)) [
  | inr e ↦ let broken = rw e at h in cc
  | inl e ↦
      let (quiet, label) = nil-append (option_value option path seen).0 _ (rw e at h) in
      rw e (option_value-new option path seen quiet)
]

check_options-new :
    (path : String) (i : ℕ) (options seen : List Value)
    → (check_options path i options seen).0 ≡ []
    → (all_new json_equal seen (values_of options) ≡ true)
      × ((check_options path i options seen).1 ≡ rev_onto (values_of options) seen)
check_options-new path i [] seen h = (refl, refl)
check_options-new path i (option ∷ options) seen h =
    let first = check_option option (indexed path i) seen in
    let (quiet, rest) = nil-append first.0 _ h in
    let (new, after) = check_option-new option (indexed path i) seen quiet in
    let (all_fresh, last) = check_options-new path (suc i) options first.1 rest in
    (ground (arith, new, (rw after at all_fresh)), last ∙ ap (rev_onto (values_of options)) after)

choice_options-new :
    (v : Value) (path : String)
    → (choice_options v path).0 ≡ []
    → (all_new json_equal [] (values_of (elements v)) ≡ true)
      × ((choice_options v path).1 ≡ rev_onto (values_of (elements v)) [])
choice_options-new (arr vs) path h =
    let (sizes, quiet) = nil-append _ (check_options path 0 (items vs) []).0 h in
    check_options-new path 0 (items vs) [] quiet
choice_options-new undefined path h = cc
choice_options-new null path h = cc
choice_options-new (bool b) path h = cc
choice_options-new (num n) path h = cc
choice_options-new (str s) path h = cc
choice_options-new (obj fs) path h = cc

module _ (quote : Value → String) where
  each_declared-all_offered :
      (options : List Value) (path : String) (vs : List Value)
      → each_declared quote options path vs ≡ []
      → all_offered options vs ≡ true
  each_declared-all_offered options path [] h = refl
  each_declared-all_offered options path (v ∷ vs) h =
      let (quiet, rest) = nil-append (undeclared quote options path v) _ h in
      let offered =
        unless-nil (is_option options v)
          (path ∷ ".value " ∷ quote v ∷ " is not one of its options" ∷ []) quiet in
      ground (arith, offered, each_declared-all_offered options path vs rest)

  multi_value-all_offered :
      (options : List Value) (v required : Value) (path : String)
      → multi_value quote options v required path ≡ []
      → all_offered options (elements v) ≡ true
  multi_value-all_offered options (arr vs) required path h =
      each_declared-all_offered options path (items vs) (nil-append _ _ h).0
  multi_value-all_offered options undefined required path h = cc
  multi_value-all_offered options null required path h = cc
  multi_value-all_offered options (bool b) required path h = cc
  multi_value-all_offered options (num n) required path h = cc
  multi_value-all_offered options (str s) required path h = cc
  multi_value-all_offered options (obj fs) required path h = cc

  single_value-all_offered :
      (options : List Value) (v required : Value) (path : String)
      → single_value quote options v required path ≡ []
      → all_offered options (if is_str v "" then [] else v ∷ []) ≡ true
  single_value-all_offered options (str s) required path h = ground arith
  single_value-all_offered options undefined required path h = cc
  single_value-all_offered options null required path h = cc
  single_value-all_offered options (bool b) required path h = cc
  single_value-all_offered options (num n) required path h = cc
  single_value-all_offered options (arr s) required path h = cc
  single_value-all_offered options (obj fs) required path h = cc

  choice_value-all_offered :
      (choice : Value) (options : List Value) (path : String)
      → choice_value quote choice options path ≡ []
      → all_offered options (selected choice) ≡ true
  choice_value-all_offered choice options path h =
      elim (Bool-cases (is_str (get choice "kind") "multi")) [
        | inl e ↦ rw e (
            multi_value-all_offered options (get choice "value") (get choice "required") path
              (rw e at h))
        | inr e ↦ elim (Bool-cases (is_str (get choice "kind") "single")) [
          | inl f ↦ rw e (
              single_value-all_offered options (get choice "value") (get choice "required") path
                (rw (e, f) at h))
          | inr f ↦ let broken = rw (e, f) at h in cc
        ]
      ]

  -- A choice without errors has options whose values are pairwise different as JSON, and whatever
  -- it submits is the value of one of them.
  pub check_choice-all_offered :
      (path : String) (choice : Value)
      → check_choice quote path choice ≡ []
      → let options = values_of (elements (get choice "options")) in
        (all_new json_equal [] options ≡ true) × (all_offered options (selected choice) ≡ true)
  unfolding check_choice
  check_choice-all_offered path choice h = elim (Bool-cases (is_plain_object choice)) [
    | inr e ↦ let broken = rw e at h in cc
    | inl e ↦
        let offered = choice_options (get choice "options") (at_field path "options") in
        let (front, value_quiet) =
          nil-append _ (choice_value quote choice offered.1 path) (rw e at h) in
        let (before, option_quiet) = nil-append _ offered.0 front in
        let (new, same) =
          choice_options-new (get choice "options") (at_field path "options") option_quiet in
        let all = choice_value-all_offered choice offered.1 path value_quiet in
        (
          new,
          sym (all_offered-rev_onto (values_of (elements (get choice "options"))) (selected choice))
              ∙ (rw same at all),
        )
  ]

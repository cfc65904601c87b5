-- ===== src/Notification/Render/Template/Formatted.antt =====
-- Values of a round under formatters without errors.
use autoform_panel.Notification.Round.{round_field_shape}
use autoform_panel.Notification.Templates.{controlled_template_tokens}
use autoform_panel.Notification.Time.{parse_iso_offset_date_time}
use autoform_panel.Stats.Distinct.{unless-nil, nil-append}
use autoform_panel.Notification.Templates.Paths.{controlled_template_tokens-path}
use autoform_panel.Stats.{text_or_empty, at_field}
use autoform_panel.Notification.{unless, bounded_string}
use autoform_panel.Notification.Formatters.{
  formatter_keys, unsupported_keys, formatter_type, typed_formatter, formatters_from,
  formatter_of_kind, validate_v3_formatters, validate_formatter, shape_of, grouped_count_list,
  iso_local_seconds, text_list, item_count, simple_allowed, formatter_fields, compatible,
  formatter_template, FormatterType,
}
use autoform_panel.Notification.Render.RoundValue.{
  token_texts, render_simple, format_round_value, sort_groups, group_text, item_texts, groups_value,
  grouped, group_texts, typed_value, Group, texts_of, listed, and_more,
}
use autoform_panel.Js.Value.{
  field_names, no_property, property, lookup, Properties, null, undefined, obj, num, bool, ℤ, items,
  str, get, arr, Elements, Value,
}
use autoform_panel.Catalog.Result.{err, ok, ◌>>=◌, Result}
use autoform_panel.Prelude.{
  ◌++◌, ◌⊎◌, Option, none, eq_iff, Option-cases, ℕ, ◌+◌, String, ◌≡◌, refl, inl, inr, true, false,
  some, List, [], ◌∷◌, str_eq, Bool-cases,
}

-- The code returns a value.
abbrev pub Returns : {A : Type 0} → Result A → Type 0
Returns {A} r = (a : A) × (r ≡ ok a)

-- What is asked of a value of a field, by the kind of the field.
pub record FitsKind (kind : String) (v : Value) : Type 0 where
  pub strings :
      str_eq kind "stringArray" ≡ true
      → (vs : Elements) × (v ≡ arr vs) × ((ss : List String) × (texts_of (items vs) ≡ some ss))
  pub counted :
      str_eq kind "countedItemArray" ≡ true
      → (vs : Elements) × (v ≡ arr vs) × ((gs : List Group) × (grouped (items vs) [] ≡ some gs))
  pub time :
      str_eq kind "isoOffsetDateTime" ≡ true
      → (s : String) × (parse_iso_offset_date_time v ≡ some s)

render_simple-Returns :
    (placeholders : List String) (value : String → String) (path : String) (v : Value)
    → formatter_template v path placeholders ≡ []
    → Returns (render_simple placeholders value v)
unfolding render_simple formatter_template bounded_string
render_simple-Returns placeholders value path (str s) h =
    elim (Bool-cases (bounded_string (str s) 1000 false)) [
      | inr e ↦ let broken = rw e at h in cc
      | inl e ↦
          let quiet = rw e at h in
          let same =
            controlled_template_tokens-path (simple_allowed placeholders) path "formatter template"
              s quiet in
          (
            token_texts value
                (controlled_template_tokens (simple_allowed placeholders) path s).tokens,
            rw (same, quiet) refl,
          )
    ]
render_simple-Returns placeholders value path undefined h = cc
render_simple-Returns placeholders value path null h = cc
render_simple-Returns placeholders value path (bool b) h = cc
render_simple-Returns placeholders value path (num n) h = cc
render_simple-Returns placeholders value path (arr vs) h = cc
render_simple-Returns placeholders value path (obj fs) h = cc

and_more-Returns : (r : Result (List String)) (s : String) → Returns r → Returns (and_more r s)
and_more-Returns (ok ss) s returns = (s ∷ ss, refl)
and_more-Returns (err fault) s (ss, broken) = cc

-- A chain returns if its parts do.
bind-Returns :
    {A B : Type 0} (r : Result A) (k : A → Result B)
    → Returns r
    → ((a : A) → Returns (k a))
    → Returns (r >>= k)
bind-Returns r k (a, e) each = rw e (each a)

module _ (path : String) (formatter : Value)
    (item_template : formatter_template
        (get formatter "itemTemplate")
        (at_field path "itemTemplate")
        ("index" ∷ "label" ∷ "count" ∷ [])
      ≡ [])
    (group_template : formatter_template
        (get formatter "groupTemplate")
        (at_field path "groupTemplate")
        ("count" ∷ "items" ∷ [])
      ≡ []) where
  item_texts-Returns :
      (z : ℤ) (labels : List String) (n : ℕ) → Returns (item_texts formatter z labels n)
  item_texts-Returns z [] n = ([], refl)
  item_texts-Returns z (label ∷ labels) n =
      bind-Returns _ _ (render_simple-Returns _ _ _ _ item_template)
        (λ s. and_more-Returns _ s (item_texts-Returns z labels (n + 1)))

  group_texts-Returns : (gs : List Group) → Returns (group_texts formatter gs)
  group_texts-Returns [] = ([], refl)
  group_texts-Returns (g ∷ gs) =
      bind-Returns (group_text formatter g) _
        (bind-Returns _ _ (item_texts-Returns g.count g.labels 0)
          (λ ss. render_simple-Returns _ _ _ _ group_template))
        (λ s. and_more-Returns _ s (group_texts-Returns gs))

  groups_value-Returns : (gs : List Group) → Returns (groups_value formatter (some gs))
  groups_value-Returns [] = (_, refl)
  groups_value-Returns (g ∷ gs) =
      bind-Returns _ _ (group_texts-Returns (sort_groups (g ∷ gs))) (λ ss. (_, refl))

listed-Returns : (formatter : Value) (ss : List String) → Returns (listed formatter ss)
listed-Returns formatter [] = (_, refl)
listed-Returns formatter (s ∷ ss) = (_, refl)

module _ (path : String) (formatter v : Value) (kind : String) (fits : FitsKind kind v) where
  typed_value-Returns :
      (type : FormatterType)
      → compatible type kind ≡ true
      → formatter_fields path type formatter ≡ []
      → Returns (typed_value (some type) formatter v)
  typed_value-Returns item_count suits h = elim (Bool-cases (str_eq kind "stringArray")) [
    | inl e ↦ let (vs, same, rest) = fits.strings e in rw same (_, refl)
    | inr e ↦ let (vs, same, rest) = fits.counted (rw e at suits) in rw same (_, refl)
  ]
  typed_value-Returns text_list suits h =
      let (vs, same, (ss, texts)) = fits.strings suits in
      rw (same, typed_value, texts) (listed-Returns formatter ss)
  typed_value-Returns iso_local_seconds suits h = let (s, e) = fits.time suits in (s, rw e refl)
  typed_value-Returns grouped_count_list suits h =
      let (vs, same, (gs, groups)) = fits.counted suits in
      let (before, item_template) = nil-append _ _ h in
      let (separators, group_template) = nil-append _ _ before in
      rw (same, typed_value, groups)
        (groups_value-Returns path formatter item_template group_template gs)

module _ (quote : Value → String) (path field kind : String) (v : Value) where
  typed_formatter-Returns :
      (type : Option FormatterType) (fs : Properties)
      → FitsKind kind v
      → typed_formatter (at_field path field) field kind type fs ≡ []
      → Returns (typed_value type (obj fs) v)
  typed_formatter-Returns none fs fits h = cc
  typed_formatter-Returns (some type) fs fits h =
      let item_path = at_field path field in
      let words =
        item_path
        ∷ ".type "
        ∷ text_or_empty (lookup "type" fs)
        ∷ " is not supported for "
        ∷ field
        ∷ [] in
      let unsupported = unsupported_keys item_path (formatter_keys type) (field_names fs) in
      let (before, checked) =
        nil-append (unsupported ++ unless (compatible type kind) words)
          (formatter_fields item_path type (obj fs)) h in
      let (keys, suits) = nil-append unsupported (unless (compatible type kind) words) before in
      typed_value-Returns item_path (obj fs) v kind fits type
        (unless-nil (compatible type kind) words suits) checked

  -- The value of a field under a formatter that was validated for it.
  formatter_of_kind-Returns :
      (formatter : Value)
      → FitsKind kind v
      → formatter_of_kind (at_field path field) field (some kind) formatter ≡ []
      → Returns (format_round_value quote v formatter)
  unfolding format_round_value
  formatter_of_kind-Returns (obj fs) fits h =
      typed_formatter-Returns (formatter_type (lookup "type" fs)) fs fits h
  formatter_of_kind-Returns undefined fits h = cc
  formatter_of_kind-Returns null fits h = cc
  formatter_of_kind-Returns (bool b) fits h = cc
  formatter_of_kind-Returns (num n) fits h = cc
  formatter_of_kind-Returns (str s) fits h = cc
  formatter_of_kind-Returns (arr vs) fits h = cc

formatters_from-lookup :
    (path field : String) (fs : Properties)
    → formatters_from path fs ≡ []
    → (lookup field fs ≡ undefined) ⊎ (validate_formatter path field (lookup field fs) ≡ [])
formatters_from-lookup path field no_property h = inl refl
formatters_from-lookup path field (property j v fs) h =
    let (first, rest) = nil-append (validate_formatter path j v) (formatters_from path fs) h in
    elim (Bool-cases (str_eq j field)) [
      | inl e ↦ inr (rw (e, ← (eq_iff j field).0 e) first)
      | inr e ↦ rw e (formatters_from-lookup path field fs rest)
    ]

abbrev pub FitsShape : String → Value → Type 0
FitsShape field v = (kind : String) → shape_of round_field_shape field ≡ some kind → FitsKind kind v

module _ (quote : Value → String) (path field : String) (v : Value) (fits : FitsShape field v) where
  validate_formatter-Returns :
      (formatter : Value)
      → validate_formatter path field formatter ≡ []
      → Returns (format_round_value quote v formatter)
  unfolding validate_formatter
  validate_formatter-Returns formatter h = elim (Option-cases (shape_of round_field_shape field)) [
    | inl e ↦ let broken = rw e at h in cc
    | inr (kind, e) ↦
        formatter_of_kind-Returns quote path field kind v formatter (fits kind e) (rw e at h)
  ]

  unformatted : Returns (format_round_value quote v undefined)
  unfolding format_round_value
  unformatted = (_, refl)

  pub format_round_value-Returns :
      (formatters : Value)
      → validate_v3_formatters formatters path ≡ []
      → Returns (format_round_value quote v (get formatters field))
  unfolding validate_v3_formatters
  format_round_value-Returns (obj fs) h =
      let (few, each) = nil-append _ (formatters_from path fs) h in
      elim (formatters_from-lookup path field fs each) [
        | inl e ↦ rw e unformatted
        | inr e ↦ validate_formatter-Returns (lookup field fs) e
      ]
  format_round_value-Returns undefined h = unformatted
  format_round_value-Returns null h = unformatted
  format_round_value-Returns (bool b) h = unformatted
  format_round_value-Returns (num n) h = unformatted
  format_round_value-Returns (str s) h = unformatted
  format_round_value-Returns (arr vs) h = unformatted

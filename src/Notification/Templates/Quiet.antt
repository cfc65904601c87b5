-- ===== src/Notification/Templates/Quiet.antt =====
-- Scans without errors.
use autoform_panel.Notification.Templates.Split.{Piece-cases, after_prefix-text}
use autoform_panel.Stats.Distinct.{nil-append}
use autoform_panel.Notification.Templates.{
  piece, token_loop, push_text, is_data_key, after_prefix, is_some, if_end, if_start, contains,
  placeholder, numeral, text, enter_block, block_token, leave_block, keyed, conditional_field,
  Token, Allowed, glue, max_tokens, fault_unless, fault, check_limit, Scan,
}
use autoform_panel.Prelude.{
  ◌&&◌, eq_iff, str_eq, ℕ, zero, suc, ◌+◌, sym, ap, ◌∙◌, not, Option, none, some, ◌++◌, leb,
  if◌then◌else◌, ◌≤◌, String, ◌≡◌, refl, inl, inr, Bool, true, false, List, [], ◌∷◌, arith, ltb,
  Bool-cases, length,
}
use Prim.Native.String

pub no_fault : (parts : List String) (s : Scan) → ¬ ((fault parts s).errors ≡ [])
no_fault parts s h = let (before, broken) = nil-append s.errors (glue parts ∷ []) h in cc

pub quiet_unless :
    (test : Bool) (parts : List String) (s : Scan)
    → (fault_unless test parts s).errors ≡ []
    → (test ≡ true) × (fault_unless test parts s ≡ s)
quiet_unless true parts s h = (refl, refl)
quiet_unless false parts s h = absurd (no_fault parts s h)

-- A limit that is not reported is kept, and the scan is as before.
pub quiet_limit :
    (path : String) (s : Scan)
    → s.reported ≡ false
    → (check_limit path s).errors ≡ []
    → (length s.tokens ≤ max_tokens) × (check_limit path s ≡ s)
quiet_limit path s unreported h = elim (Bool-cases (ltb max_tokens (length s.tokens))) [
  | inl e ↦ absurd (
      no_fault (path ∷ " must not contain more than 128 template tokens" ∷ []) s
        (ground (arith, h, e, unreported)))
  | inr e ↦ (ground (arith, e), ground (arith, e))
]

-- What stands between the braces of a token; a text has none.
abbrev pub raw_of : Token → Option String
raw_of (text s) = none
raw_of (placeholder field) = some field
raw_of (if_start field) = some (String.◌++◌ "#if " field)
raw_of if_end = some "/if"

-- The depth of blocks after a token, if it opens no block too deep and closes none that is not open.
abbrev pub depth_step : ℕ → ℕ → Token → Option ℕ
depth_step limit depth (text s) = some depth
depth_step limit depth (placeholder field) = some depth
depth_step limit depth (if_start field) = if leb (depth + 1) limit then some (depth + 1) else none
depth_step limit zero if_end = none
depth_step limit (suc depth) if_end = some depth

abbrev pub name_allowed : Allowed → Token → Bool
name_allowed a (text s) = true
name_allowed a (placeholder field) = contains a.placeholders field
name_allowed a (if_start field) = contains a.conditionals field
name_allowed a if_end = true

-- The scan `next` has one token more than `s`, which stands for `raw`.
abbrev pub Added : Allowed → String → Scan → Scan → Type 0
Added a raw s next =
    (t : Token) × (raw_of t ≡ some raw)
    × (next.tokens ≡ s.tokens ++ (t ∷ []))
    × (depth_step a.max_depth s.depth t ≡ some next.depth)
    × (name_allowed a t ≡ true)
    × (s.errors ≡ [])
    × (next.reported ≡ s.reported)

leave_block-quiet :
    (path : String) (d : ℕ) (s : Scan)
    → (leave_block path d s).errors ≡ []
    → (k : ℕ) × (d ≡ suc k) × (leave_block path d s ≡ record s { depth = k })
leave_block-quiet path zero s h =
    absurd (no_fault (path ∷ " contains {{/if}} without a matching {{#if field}}" ∷ []) s h)
leave_block-quiet path (suc d) s h = (d, refl, refl)

keyed-text : (o : Option String) (f : String) → keyed o ≡ some f → o ≡ some f
keyed-text none f h = cc
keyed-text (some g) f h = ground arith

conditional_field-text :
    (raw f : String) → conditional_field raw ≡ some f → raw ≡ String.◌++◌ "#if " f
unfolding conditional_field
conditional_field-text raw f h =
    after_prefix-text "#if " raw f (keyed-text (after_prefix "#if " raw) f h)

module _ (a : Allowed) (path raw : String) (s : Scan) where
  enter_block-Added :
      (field : Option String)
      → conditional_field raw ≡ field
      → (enter_block a path raw field s).errors ≡ []
      → Added a raw s (enter_block a path raw field s)
  enter_block-Added none e h =
      absurd (no_fault (path ∷ " uses invalid conditional token {{" ∷ raw ∷ "}}" ∷ []) s h)
  enter_block-Added (some field) e h =
      let unknown = path ∷ " uses unsupported conditional field " ∷ field ∷ [] in
      let deep =
        path ∷ " conditional blocks must not exceed " ∷ numeral a.max_depth ∷ " levels" ∷ [] in
      let known = fault_unless (contains a.conditionals field) unknown s in
      let (shallow, same) =
        quiet_unless (leb (s.depth + 1) a.max_depth) deep (record known { depth = s.depth + 1 })
          h in
      let quiet : known.errors ≡ [] = ap (λ (x : Scan). x.errors) (sym same) ∙ h in
      let (listed, as_before) = quiet_unless (contains a.conditionals field) unknown s quiet in
      (
        if_start field,
        ap some (sym (conditional_field-text raw field e)),
        rw (shallow, listed) refl,
        rw shallow refl,
        listed,
        ap (λ (x : Scan). x.errors) (sym as_before) ∙ quiet,
        rw (shallow, listed) refl,
      )

  pub block_token-Added :
      (block_token a path raw s).errors ≡ [] → Added a raw s (block_token a path raw s)
  unfolding block_token
  block_token-Added h = elim (Bool-cases (str_eq raw "/if")) [
    | inl e ↦ elim (Bool-cases a.allow_conditionals) [
      | inr off ↦
          absurd
            (no_fault (path ∷ " does not support conditional blocks" ∷ []) s (rw (e, off) at h))
      | inl on ↦
          let (k, open_before, same) = leave_block-quiet path s.depth s (rw (e, on) at h) in
          (
            if_end,
            ap some (sym ((eq_iff raw "/if").0 e)),
            rw (e, on, same) refl,
            rw (e, on, same, open_before) refl,
            refl,
            ap (λ (x : Scan). x.errors) (sym same) ∙ (rw (e, on) at h),
            rw (e, on, same) refl,
          )
    ]
    | inr e ↦ elim (Bool-cases (is_some (after_prefix "#if" raw))) [
      | inl f ↦ elim (Bool-cases a.allow_conditionals) [
        | inr off ↦
            absurd (
              no_fault (path ∷ " does not support conditional blocks" ∷ []) s (rw (e, f, off) at h))
        | inl on ↦
            rw (e, f, on) (enter_block-Added (conditional_field raw) refl (rw (e, f, on) at h))
      ]
      | inr f ↦ elim (Bool-cases (not (is_data_key raw) && not (str_eq raw "type"))) [
        | inl g ↦ absurd (
            no_fault (path ∷ " uses invalid placeholder {{" ∷ raw ∷ "}}" ∷ []) s
              (rw (e, f, g) at h))
        | inr g ↦
            let (listed, same) =
              quiet_unless (contains a.placeholders raw)
                (path ∷ " uses unsupported placeholder {{" ∷ raw ∷ "}}" ∷ []) s
                (rw (e, f, g) at h) in
            (
              placeholder raw,
              refl,
              rw (e, f, g, same) refl,
              rw (e, f, g, same) refl,
              listed,
              ap (λ (x : Scan). x.errors) (sym same) ∙ (rw (e, f, g) at h),
              rw (e, f, g, same) refl,
            )
      ]
    ]
  ]

pub check_limit-quiet :
    (path : String) (s : Scan) → (check_limit path s).errors ≡ [] → s.errors ≡ []
check_limit-quiet path s h =
    elim (Bool-cases (ltb max_tokens (length s.tokens) && not s.reported)) [
      | inl e ↦
          absurd
            (no_fault (path ∷ " must not contain more than 128 template tokens" ∷ []) s (rw e at h))
      | inr e ↦ rw e at h
    ]

pub push_text-errors : (x : String) (s : Scan) → (push_text x s).errors ≡ s.errors
push_text-errors String.[] s = refl
push_text-errors (String.◌∷◌ c x) s = refl

module _ (a : Allowed) (path : String) where
  -- A loop that ends without an error has begun without one.
  pub token_loop-quiet :
      (fuel : ℕ) (rest : String) (s last : Scan)
      → token_loop fuel a path rest s ≡ some last
      → last.errors ≡ []
      → s.errors ≡ []
  unfolding token_loop
  token_loop-quiet zero rest s last e h = cc
  token_loop-quiet (suc fuel) String.[] s last e h = cc
  token_loop-quiet (suc fuel) (String.◌∷◌ c t) s last e h =
      elim (Piece-cases (piece (String.◌∷◌ c t))) [
        | inl (r, p) ↦ absurd (
            no_fault (path ∷ " contains an unexpected }} token" ∷ []) s (
              token_loop-quiet fuel r (fault (path ∷ " contains an unexpected }} token" ∷ []) s)
                last (rw (p, token_loop) at e) h))
        | inr (inl p) ↦ let done = rw (p, token_loop) at e in cc
        | inr (inr (inl (x, p))) ↦
            let done = rw (p, token_loop) at e in
            absurd
              (no_fault (path ∷ " contains an unterminated {{ token" ∷ []) (push_text x s) (cc))
        | inr (inr (inr (x, raw, r, p))) ↦
            let next = block_token a path raw (push_text x s) in
            let quiet =
              token_loop-quiet fuel r (check_limit path next) last (rw (p, token_loop) at e) h in
            let (t, raw_is, tokens, depth, named, before, reported) =
              block_token-Added a path raw (push_text x s) (check_limit-quiet path next quiet) in
            sym (push_text-errors x s) ∙ before
      ]

-- ===== src/Notification/Templates/Paths.antt =====
-- The path that the errors of a template name.
use autoform_panel.Notification.Templates.Quiet.{
  check_limit-quiet, token_loop-quiet, quiet_unless, no_fault,
}
use autoform_panel.Notification.Templates.Termination.{controlled_template_tokens-returns}
use autoform_panel.Notification.Templates.Split.{Piece-cases}
use autoform_panel.Notification.Templates.{
  placeholder, is_data_key, conditional_field, after_prefix, start, push_text, is_some, if_end,
  contains, codes, push, piece, numeral, max_tokens, fault, token_loop, leave_block, fault_unless,
  enter_block, controlled_template_tokens, check_limit, block_token, Scan, Allowed,
}
use autoform_panel.Prelude.{
  ℕ, zero, suc, ◌+◌, String, ◌≡◌, refl, sym, ap, ◌∙◌, inl, inr, Bool, true, false, not, ◌&&◌,
  Option, none, some, List, [], ◌∷◌, str_eq, ltb, leb, ◌==◌, Bool-cases, length,
}

unless-path :
    (test : Bool) (parts others : List String) (s : Scan)
    → (fault_unless test parts s).errors ≡ []
    → fault_unless test others s ≡ fault_unless test parts s
unless-path true parts others s h = refl
unless-path false parts others s h = absurd (no_fault parts s h)

module _ (a : Allowed) (p q : String) where
  leave_block-path :
      (d : ℕ) (s : Scan) → (leave_block p d s).errors ≡ [] → leave_block q d s ≡ leave_block p d s
  leave_block-path zero s h =
      absurd (no_fault (p ∷ " contains {{/if}} without a matching {{#if field}}" ∷ []) s h)
  leave_block-path (suc d) s h = refl

  enter_block-path :
      (raw : String) (field : Option String) (s : Scan)
      → (enter_block a p raw field s).errors ≡ []
      → enter_block a q raw field s ≡ enter_block a p raw field s
  enter_block-path raw none s h =
      absurd (no_fault (p ∷ " uses invalid conditional token {{" ∷ raw ∷ "}}" ∷ []) s h)
  enter_block-path raw (some field) s h =
      let unknown = p ∷ " uses unsupported conditional field " ∷ field ∷ [] in
      let deep =
        p ∷ " conditional blocks must not exceed " ∷ numeral a.max_depth ∷ " levels" ∷ [] in
      let known = fault_unless (contains a.conditionals field) unknown s in
      let (shallow, same) =
        quiet_unless (leb (s.depth + 1) a.max_depth) deep (record known { depth = s.depth + 1 })
          h in
      let quiet : known.errors ≡ [] = ap (λ (x : Scan). x.errors) (sym same) ∙ h in
      let (listed, as_before) = quiet_unless (contains a.conditionals field) unknown s quiet in
      rw (shallow, listed) refl

  block_token-path :
      (raw : String) (s : Scan)
      → (block_token a p raw s).errors ≡ []
      → block_token a q raw s ≡ block_token a p raw s
  unfolding block_token
  block_token-path raw s h = elim (Bool-cases (str_eq raw "/if")) [
    | inl e ↦ elim (Bool-cases a.allow_conditionals) [
      | inr off ↦
          absurd (no_fault (p ∷ " does not support conditional blocks" ∷ []) s (rw (e, off) at h))
      | inl on ↦ rw (e, on) (ap (push if_end) (leave_block-path s.depth s (rw (e, on) at h)))
    ]
    | inr e ↦ elim (Bool-cases (is_some (after_prefix "#if" raw))) [
      | inl f ↦ elim (Bool-cases a.allow_conditionals) [
        | inr off ↦
            absurd
              (no_fault (p ∷ " does not support conditional blocks" ∷ []) s (rw (e, f, off) at h))
        | inl on ↦
            rw (e, f, on) (enter_block-path raw (conditional_field raw) s (rw (e, f, on) at h))
      ]
      | inr f ↦ elim (Bool-cases (not (is_data_key raw) && not (str_eq raw "type"))) [
        | inl g ↦
            absurd (
              no_fault (p ∷ " uses invalid placeholder {{" ∷ raw ∷ "}}" ∷ []) s (rw (e, f, g) at h))
        | inr g ↦
            rw (e, f, g)
              (ap (push (placeholder raw)) (
                unless-path (contains a.placeholders raw)
                  (p ∷ " uses unsupported placeholder {{" ∷ raw ∷ "}}" ∷ [])
                  (q ∷ " uses unsupported placeholder {{" ∷ raw ∷ "}}" ∷ []) s (rw (e, f, g) at h)))
      ]
    ]
  ]

  check_limit-path : (s : Scan) → (check_limit p s).errors ≡ [] → check_limit q s ≡ check_limit p s
  check_limit-path s h = elim (Bool-cases (ltb max_tokens (length s.tokens) && not s.reported)) [
    | inl e ↦
        absurd (no_fault (p ∷ " must not contain more than 128 template tokens" ∷ []) s (rw e at h))
    | inr e ↦ rw e refl
  ]

  token_loop-path :
      (fuel : ℕ) (rest : String) (s last : Scan)
      → token_loop fuel a p rest s ≡ some last
      → last.errors ≡ []
      → token_loop fuel a q rest s ≡ some last
  unfolding token_loop
  token_loop-path zero rest s last e h = e
  token_loop-path (suc fuel) String.[] s last e h = e
  token_loop-path (suc fuel) (String.◌∷◌ c t) s last e h =
      elim (Piece-cases (piece (String.◌∷◌ c t))) [
        | inl (r, x) ↦ absurd (
            no_fault (p ∷ " contains an unexpected }} token" ∷ []) s (
              token_loop-quiet a p fuel r (fault (p ∷ " contains an unexpected }} token" ∷ []) s)
                last (rw (x, token_loop) at e) h))
        | inr (inl x) ↦ let done = rw (x, token_loop) at e in rw (x, token_loop) done
        | inr (inr (inl (before, x))) ↦
            let done = rw (x, token_loop) at e in
            absurd
              (no_fault (p ∷ " contains an unterminated {{ token" ∷ []) (push_text before s) (cc))
        | inr (inr (inr (before, raw, r, x))) ↦
            let at_block = push_text before s in
            let next = block_token a p raw at_block in
            let more = rw (x, token_loop) at e in
            let quiet = token_loop-quiet a p fuel r (check_limit p next) last more h in
            let same = block_token-path raw at_block (check_limit-quiet p next quiet) in
            rw (x, token_loop, same, check_limit-path next quiet)
              (token_loop-path fuel r (check_limit p next) last more h)
      ]

  -- A template without errors has the same scan whatever path its errors would name.
  pub controlled_template_tokens-path :
      (template : String)
      → (controlled_template_tokens a p template).errors ≡ []
      → controlled_template_tokens a q template ≡ controlled_template_tokens a p template
  unfolding controlled_template_tokens
  controlled_template_tokens-path template h =
      let (last, e, same) = controlled_template_tokens-returns a p template in
      let closing = p ∷ " contains an unclosed {{#if field}} block" ∷ [] in
      let (closed, as_before) =
        quiet_unless (last.depth == 0) closing last (ap (λ (x : Scan). x.errors) (sym same) ∙ h) in
      let whole = same ∙ as_before in
      let other =
        token_loop-path (suc (length (codes template))) template start last e
          (ap (λ (x : Scan). x.errors) (sym whole) ∙ h) in
      rw (e, other)
        (unless-path (last.depth == 0) closing
          (q ∷ " contains an unclosed {{#if field}} block" ∷ []) last
          (ap (λ (x : Scan). x.errors) (sym same) ∙ h))

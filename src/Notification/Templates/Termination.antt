-- ===== src/Notification/Templates/Termination.antt =====
-- The fuel of the token loop.
use autoform_panel.Notification.Templates.Split.{
  piece-block-length, piece-stray-length, Piece-cases,
}
use autoform_panel.Notification.Templates.{
  block_token, check_limit, push_text, text, push, fault, piece, finish, start, codes, Scan,
  token_loop, controlled_template_tokens, Allowed,
}
use autoform_panel.Prelude.{
  ℕ, zero, suc, ◌<◌, String, ◌≡◌, refl, ap, inl, inr, some, [], ◌∷◌, arith, length,
}

module _ (a : Allowed) (path : String) where
  -- The loop returns whenever its fuel is more than the number of characters that are left.
  pub token_loop-returns :
      (fuel : ℕ) (rest : String) (s : Scan)
      → length (codes rest) < fuel
      → (last : Scan) × (token_loop fuel a path rest s ≡ some last)
  unfolding token_loop
  token_loop-returns zero rest s h = elim h [ ]
  token_loop-returns (suc fuel) String.[] s h = (s, refl)
  token_loop-returns (suc fuel) (String.◌∷◌ c t) s h = elim (Piece-cases (piece (String.◌∷◌ c t))) [
    | inl (r, e) ↦
        let shorter = piece-stray-length (String.◌∷◌ c t) r e in
        rw (e, token_loop)
          (token_loop-returns fuel r (fault (path ∷ " contains an unexpected }} token" ∷ []) s)
            (omega arith))
    | inr (inl e) ↦ (push (text (String.◌∷◌ c t)) s, rw (e, token_loop))
    | inr (inr (inl (x, e))) ↦ (
      fault (path ∷ " contains an unterminated {{ token" ∷ []) (push_text x s),
      rw (e, token_loop),
    )
    | inr (inr (inr (x, raw, r, e))) ↦
        let shorter = piece-block-length (String.◌∷◌ c t) x raw r e in
        rw (e, token_loop)
          (token_loop-returns fuel r (check_limit path (block_token a path raw (push_text x s)))
            (omega arith))
  ]

  -- The scan of a whole template ends: it is that of the loop, closed by the test of its depth.
  pub controlled_template_tokens-returns :
      (template : String)
      → (last : Scan) × (token_loop (suc (length (codes template))) a path template start
          ≡ some last)
        × (controlled_template_tokens a path template ≡ finish path (some last))
  unfolding controlled_template_tokens
  controlled_template_tokens-returns template =
      let (last, e) =
        token_loop-returns (suc (length (codes template))) template start (omega arith) in
      (last, e, ap (finish path) e)

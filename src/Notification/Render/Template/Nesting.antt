-- ===== src/Notification/Render/Template/Nesting.antt =====
-- The blocks of a template that is tokenised without errors.
use autoform_panel.Notification.Formatters.{round_allowed}
use autoform_panel.Notification.Render.Template.{render_tokens, render_round_template}
use autoform_panel.Notification.Templates.Print.{
  controlled_template_tokens-Reads, print_tokens, depth_after,
}
use autoform_panel.Notification.Render.Template.Blocks.{
  render_tokens-flatten, printed, append_all, words, flatten, field, done, conditional, Block,
}
use autoform_panel.Notification.Templates.{
  if_end, controlled_template_tokens, text, placeholder, if_start, Token,
}
use autoform_panel.Catalog.Result.{err, ok, ◌>>=◌, Result}
use autoform_panel.Prelude.{
  true, append-nil, arith, ℕ, zero, suc, ◌+◌, String, ◌≡◌, refl, sym, ap, ◌∙◌, inl, inr, Bool, none,
  some, List, [], ◌∷◌, ◌++◌, append_assoc, leb, Bool-cases,
}

-- The tokens end `d` blocks that are open before them.
abbrev Closes : ℕ → List Token → Type 0
Closes zero ts = (b : Block) × (flatten b ≡ ts)
Closes (suc d) ts =
    (b : Block) × (rest : List Token) × (ts ≡ flatten b ++ (if_end ∷ rest)) × Closes d rest

words-Closes : (d : ℕ) (s : String) (ts : List Token) → Closes d ts → Closes d (text s ∷ ts)
words-Closes zero s ts (b, e) = (words s b, ap (λ (l : List Token). text s ∷ l) e)
words-Closes (suc d) s ts (b, rest, e, closes) =
    (words s b, rest, ap (λ (l : List Token). text s ∷ l) e, closes)

field-Closes : (d : ℕ) (f : String) (ts : List Token) → Closes d ts → Closes d (placeholder f ∷ ts)
field-Closes zero f ts (b, e) = (field f b, ap (λ (l : List Token). placeholder f ∷ l) e)
field-Closes (suc d) f ts (b, rest, e, closes) =
    (field f b, rest, ap (λ (l : List Token). placeholder f ∷ l) e, closes)

conditional-Closes :
    (d : ℕ) (f : String) (ts : List Token) → Closes (suc d) ts → Closes d (if_start f ∷ ts)
conditional-Closes zero f ts (inside, rest, e, (next, whole)) =
    (conditional f inside next, rw (e, ← whole) refl)
conditional-Closes (suc d) f ts (inside, rest, e, (next, after, whole, closes)) = (
  conditional f inside next,
  after,
  rw (e, whole)
      (ap (λ (l : List Token). if_start f ∷ l)
        (sym (append_assoc (flatten inside) (if_end ∷ flatten next) (if_end ∷ after)))),
  closes,
)

no_depth : (limit : ℕ) (ts : List Token) (d : ℕ) → ¬ (depth_after limit none ts ≡ some d)
no_depth limit [] d h = cc
no_depth limit (t ∷ ts) d h = no_depth limit ts d h

depth_after-Closes :
    (limit : ℕ) (ts : List Token) (d : ℕ) → depth_after limit (some d) ts ≡ some 0 → Closes d ts
depth_after-Closes limit [] zero h = (done, refl)
depth_after-Closes limit [] (suc d) h = cc
depth_after-Closes limit (text s ∷ ts) d h = words-Closes d s ts (depth_after-Closes limit ts d h)
depth_after-Closes limit (placeholder f ∷ ts) d h =
    field-Closes d f ts (depth_after-Closes limit ts d h)
depth_after-Closes limit (if_start f ∷ ts) d h = elim (Bool-cases (leb (d + 1) limit)) [
  | inl e ↦
      let next : d + 1 ≡ suc d = omega arith in
      let deeper : depth_after limit (some (suc d)) ts ≡ some 0 = rw (e, next) at h in
      conditional-Closes d f ts (depth_after-Closes limit ts (suc d) deeper)
  | inr e ↦ absurd (no_depth limit ts 0 (rw e at h))
]
depth_after-Closes limit (if_end ∷ ts) zero h = absurd (no_depth limit ts 0 h)
depth_after-Closes limit (if_end ∷ ts) (suc d) h = (done, ts, refl, depth_after-Closes limit ts d h)

bind-ok : (r : Result String) → (r >>= λ (s : String). ok s) ≡ r
bind-ok (err fault) = refl
bind-ok (ok s) = refl

module _ (value_text : String → Result String) (holds : String → Bool) where
  render_tokens-blocks :
      (b : Block) (ts : List Token)
      → flatten b ≡ ts
      → render_tokens value_text holds ts (true ∷ []) ""
        ≡ append_all "" (printed value_text holds b)
  unfolding render_tokens
  render_tokens-blocks b ts e =
      rw (← e, ← append-nil (flatten b))
        (render_tokens-flatten value_text holds b true [] [] ""
          ∙ bind-ok (append_all "" (printed value_text holds b)))

  -- A round template that is tokenised without errors is the text of some nesting of blocks, and
  -- its message puts behind one another what those blocks print, a block whose field does not hold
  -- being left out with all that is inside it.
  pub render_round_template-blocks :
      (template : String)
      → (controlled_template_tokens round_allowed "messageTemplate" template).errors ≡ []
      → (b : Block) × (print_tokens (flatten b) ≡ template)
        × (render_round_template value_text holds template
            ≡ append_all "" (printed value_text holds b))
  unfolding render_round_template
  render_round_template-blocks template h =
      let scan = controlled_template_tokens round_allowed "messageTemplate" template in
      let (prints, depth, named, few) =
        controlled_template_tokens-Reads round_allowed "messageTemplate" template h in
      let (b, e) = depth_after-Closes 4 scan.tokens 0 depth in
      (b, ap print_tokens e ∙ prints, rw h (render_tokens-blocks b scan.tokens e))

-- ===== src/Notification/Render/Template/Blocks.antt =====
-- The tokens of a template as nested blocks, and what the blocks print.
use autoform_panel.Notification.Render.Template.{append_text, render_tokens}
use autoform_panel.Notification.Templates.{if_end, if_start, placeholder, text, Token}
use autoform_panel.Catalog.Result.{err, ok, ◌>>=◌, Result-cases, Result}
use autoform_panel.Prelude.{
  ◌∙◌, true, false, ◌&&◌, append_assoc, String, ◌≡◌, refl, inl, inr, Bool, List, [], ◌∷◌, ◌++◌,
  if◌then◌else◌,
}

-- A part of a template; a conditional block stands with what is inside it and what follows it.
pub data Block : Type 0 where
  done : Block
  words : String → Block → Block
  field : String → Block → Block
  conditional : (name : String) (inside next : Block) → Block

abbrev pub flatten : Block → List Token
flatten done = []
flatten (words s b) = text s ∷ flatten b
flatten (field f b) = placeholder f ∷ flatten b
flatten (conditional f inside next) = if_start f ∷ (flatten inside ++ (if_end ∷ flatten next))

module _ (value_text : String → Result String) (holds : String → Bool) where
  -- What a block prints, one by one: a conditional block whose field does not hold prints nothing.
  abbrev pub printed : Block → List (Result String)
  printed done = []
  printed (words s b) = ok s ∷ printed b
  printed (field f b) = value_text f ∷ printed b
  printed (conditional f inside next) = (if holds f then printed inside else []) ++ printed next

-- The texts put behind one another, within the limit of the length.
abbrev pub append_all : String → List (Result String) → Result String
append_all rendered [] = ok rendered
append_all rendered (r ∷ rs) = (r >>= append_text rendered) >>= λ next. append_all next rs

append_all-append :
    (rendered : String) (rs qs : List (Result String))
    → append_all rendered (rs ++ qs) ≡ (append_all rendered rs >>= λ next. append_all next qs)
append_all-append rendered [] qs = refl
append_all-append rendered (r ∷ rs) qs = elim (Result-cases (r >>= append_text rendered)) [
  | inl (f, e) ↦ rw e refl
  | inr (next, e) ↦ rw e (append_all-append next rs qs)
]

-- A step, and the texts after it.
bind_chain :
    (r : Result String) (k : String → Result String) (rs : List (Result String))
    (tail : String → Result String)
    → ((s : String) → k s ≡ (append_all s rs >>= tail))
    → (r >>= k) ≡ ((r >>= λ s. append_all s rs) >>= tail)
bind_chain (err fault) k rs tail h = refl
bind_chain (ok s) k rs tail h = h s

-- An inactive block prints nothing.
abbrev pub shown : Bool → List (Result String) → List (Result String)
shown act rs = if act then rs else []

shown-conditional :
    (act holding : Bool) (rs qs : List (Result String))
    → shown act ((if holding then rs else []) ++ qs) ≡ shown (act && holding) rs ++ shown act qs
shown-conditional true holding rs qs = refl
shown-conditional false holding rs qs = refl

module _ (value_text : String → Result String) (holds : String → Bool) where
  pub render_tokens-flatten :
      (b : Block) (act : Bool) (active : List Bool) (rest : List Token) (rendered : String)
      → render_tokens value_text holds (flatten b ++ rest) (act ∷ active) rendered ≡ (
          append_all rendered (shown act (printed value_text holds b))
          >>= render_tokens value_text holds rest (act ∷ active))
  unfolding render_tokens
  render_tokens-flatten done true active rest rendered = refl
  render_tokens-flatten done false active rest rendered = refl
  render_tokens-flatten (words s b) true active rest rendered =
      bind_chain (append_text rendered s) _ (printed value_text holds b) _
        (render_tokens-flatten b true active rest)
  render_tokens-flatten (words s b) false active rest rendered =
      render_tokens-flatten b false active rest rendered
  render_tokens-flatten (field f b) true active rest rendered =
      bind_chain (value_text f >>= append_text rendered) _ (printed value_text holds b) _
        (render_tokens-flatten b true active rest)
  render_tokens-flatten (field f b) false active rest rendered =
      render_tokens-flatten b false active rest rendered
  render_tokens-flatten (conditional f inside next) act active rest rendered =
      let tail = render_tokens value_text holds rest (act ∷ active) in
      let shown_inside = shown (act && holds f) (printed value_text holds inside) in
      let shown_next = shown act (printed value_text holds next) in
      let inner =
        render_tokens value_text holds ((if_end ∷ flatten next) ++ rest)
          ((act && holds f) ∷ act ∷ active) in
      rw
        (
          append_assoc (flatten inside) (if_end ∷ flatten next) rest,
          shown-conditional act (holds f) (printed value_text holds inside)
              (printed value_text holds next),
          append_all-append rendered shown_inside shown_next,
        )
        (render_tokens-flatten inside (act && holds f) (act ∷ active)
            ((if_end ∷ flatten next) ++ rest) rendered
          ∙ bind_chain (append_all rendered shown_inside) inner shown_next tail
              (render_tokens-flatten next act active rest))

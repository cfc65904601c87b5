-- ===== src/Notification/Templates/Print.antt =====
-- Templates without errors: their tokens, printed and nested.
use autoform_panel.Notification.Templates.Termination.{controlled_template_tokens-returns}
use autoform_panel.Notification.Templates.Split.{piece-text, Piece-cases, pair_of}
use autoform_panel.Notification.Templates.Quiet.{
  quiet_limit, check_limit-quiet, block_token-Added, quiet_unless, token_loop-quiet, no_fault,
  Added, raw_of, name_allowed, depth_step,
}
use autoform_panel.Notification.Templates.{
  check_limit, block_token, push, codes, fault, start, controlled_template_tokens, if_end, piece,
  if_start, brace_close, max_tokens, brace_open, token_loop, push_text, placeholder, text, Scan,
  Token, Allowed,
}
use autoform_panel.Prelude.{
  Char, ◌==◌, length-append, zero, suc, ◌≤◌, inl, inr, false, length, ℕ, String, ◌≡◌, refl, sym, ap,
  ◌∙◌, Bool, true, ◌&&◌, Option, none, some, List, [], ◌∷◌, ◌++◌, arith,
}
use package.text.Mathlib.TextLemmas.{
  nil-append, append-nil as text_append_nil, cons-append, append_assoc as text_assoc,
}
use Prim.Native.String

-- A token as it stands in a template.
abbrev pub print_token : Token → String
print_token (text s) = s
print_token (placeholder field) = pair_of brace_open (String.◌++◌ field (pair_of brace_close ""))
print_token (if_start field) =
    pair_of brace_open (String.◌++◌ (String.◌++◌ "#if " field) (pair_of brace_close ""))
print_token if_end = pair_of brace_open (String.◌++◌ "/if" (pair_of brace_close ""))

abbrev pub print_tokens : List Token → String
print_tokens [] = ""
print_tokens (t ∷ ts) = String.◌++◌ (print_token t) (print_tokens ts)

abbrev pub step_from : ℕ → Option ℕ → Token → Option ℕ
step_from limit none t = none
step_from limit (some depth) t = depth_step limit depth t

-- The depth of blocks after the tokens, from a depth before them; none if they nest badly.
abbrev pub depth_after : ℕ → Option ℕ → List Token → Option ℕ
depth_after limit depth [] = depth
depth_after limit depth (t ∷ ts) = depth_after limit (step_from limit depth t) ts

abbrev pub all_named : Allowed → List Token → Bool
all_named a [] = true
all_named a (t ∷ ts) = name_allowed a t && all_named a ts

print_tokens-snoc :
    (ts : List Token) (t : Token)
    → print_tokens (ts ++ (t ∷ [])) ≡ String.◌++◌ (print_tokens ts) (print_token t)
print_tokens-snoc [] t = text_append_nil (print_token t) ∙ sym (nil-append (print_token t))
print_tokens-snoc (u ∷ ts) t =
    ap (String.◌++◌ (print_token u)) (print_tokens-snoc ts t)
    ∙ sym (text_assoc (print_token u) (print_tokens ts) (print_token t))

depth_after-snoc :
    (limit : ℕ) (depth : Option ℕ) (ts : List Token) (t : Token)
    → depth_after limit depth (ts ++ (t ∷ [])) ≡ step_from limit (depth_after limit depth ts) t
depth_after-snoc limit depth [] t = refl
depth_after-snoc limit depth (u ∷ ts) t = depth_after-snoc limit (step_from limit depth u) ts t

all_named-snoc :
    (a : Allowed) (ts : List Token) (t : Token)
    → all_named a (ts ++ (t ∷ [])) ≡ (all_named a ts && name_allowed a t)
all_named-snoc a [] t = ground arith
all_named-snoc a (u ∷ ts) t = ground (arith, all_named-snoc a ts t)

print_token-raw :
    (t : Token) (raw : String)
    → raw_of t ≡ some raw
    → print_token t ≡ pair_of brace_open (String.◌++◌ raw (pair_of brace_close ""))
print_token-raw (text s) raw h = cc
print_token-raw (placeholder field) raw h = cc
print_token-raw (if_start field) raw h = cc
print_token-raw if_end raw h = cc

-- The tokens of a scan print the text that has been read, nest to its depth and name what is allowed.
abbrev pub Reads : Allowed → String → Scan → Type 0
Reads a read s =
    (print_tokens s.tokens ≡ read)
    × (depth_after a.max_depth (some 0) s.tokens ≡ some s.depth)
    × (all_named a s.tokens ≡ true)

push_text-Reads :
    (a : Allowed) (read x : String) (s : Scan)
    → Reads a read s
    → Reads a (String.◌++◌ read x) (push_text x s)
push_text-Reads a read String.[] s (p, d, n) = (p ∙ sym (text_append_nil read), d, n)
push_text-Reads a read (String.◌∷◌ c x) s (p, d, n) =
    let t = text (String.◌∷◌ c x) in
    (
      print_tokens-snoc s.tokens t ∙ ap (λ (r : String). String.◌++◌ r (String.◌∷◌ c x)) p,
      depth_after-snoc a.max_depth (some 0) s.tokens t
          ∙ ap (λ (o : Option ℕ). step_from a.max_depth o t) d,
      ground (arith, all_named-snoc a s.tokens t, n),
    )

Added-Reads :
    (a : Allowed) (read raw : String) (s next : Scan)
    → Reads a read s
    → Added a raw s next
    → Reads a
        (String.◌++◌ read (pair_of brace_open (String.◌++◌ raw (pair_of brace_close ""))))
        next
Added-Reads a read raw s next (p, d, n) (t, raw_is, tokens, depth, named, quiet, reported) = (
  ap print_tokens tokens
      ∙ print_tokens-snoc s.tokens t
      ∙ ap (λ (r : String). String.◌++◌ r (print_token t)) p
      ∙ ap (String.◌++◌ read) (print_token-raw t raw raw_is),
  ap (depth_after a.max_depth (some 0)) tokens
      ∙ depth_after-snoc a.max_depth (some 0) s.tokens t
      ∙ ap (λ (o : Option ℕ). step_from a.max_depth o t) d
      ∙ depth,
  ap (all_named a) tokens ∙ ground (arith, all_named-snoc a s.tokens t, n, named),
)

pair_of-append :
    (q : Char) (s r : String) → String.◌++◌ (pair_of q s) r ≡ pair_of q (String.◌++◌ s r)
pair_of-append q s r = cons-append q (String.◌∷◌ q s) r ∙ ap (String.◌∷◌ q) (cons-append q s r)

-- Two texts before a block, the block, and the text after it.
join_block :
    (read x raw r : String)
    → String.◌++◌
        (String.◌++◌
          (String.◌++◌ read x)
          (pair_of brace_open (String.◌++◌ raw (pair_of brace_close ""))))
        r
      ≡ String.◌++◌ read
          (String.◌++◌ x (pair_of brace_open (String.◌++◌ raw (pair_of brace_close r))))
join_block read x raw r =
    text_assoc (String.◌++◌ read x) (pair_of brace_open (String.◌++◌ raw (pair_of brace_close "")))
      r
    ∙ text_assoc read x
        (String.◌++◌ (pair_of brace_open (String.◌++◌ raw (pair_of brace_close ""))) r)
    ∙ ap (λ (t : String). String.◌++◌ read (String.◌++◌ x t))
        (pair_of-append brace_open (String.◌++◌ raw (pair_of brace_close "")) r
          ∙ ap (pair_of brace_open) (
              text_assoc raw (pair_of brace_close "") r
              ∙ ap (String.◌++◌ raw)
                  (pair_of-append brace_close "" r ∙ ap (pair_of brace_close) (nil-append r))))

push_text-reported : (x : String) (s : Scan) → (push_text x s).reported ≡ s.reported
push_text-reported String.[] s = refl
push_text-reported (String.◌∷◌ c x) s = refl

module _ (a : Allowed) (path : String) where
  token_loop-Reads :
      (fuel : ℕ) (rest read : String) (s last : Scan)
      → token_loop fuel a path rest s ≡ some last
      → last.errors ≡ []
      → Reads a read s
      → s.reported ≡ false
      → length s.tokens ≤ max_tokens
      → Reads a (String.◌++◌ read rest) last × (length last.tokens ≤ suc max_tokens)
  unfolding token_loop
  token_loop-Reads zero rest read s last e h reads unreported few = cc
  token_loop-Reads (suc fuel) String.[] read s last e h reads unreported few =
      let same : s ≡ last = cc in rw (text_append_nil read, ← same) (reads, omega arith)
  token_loop-Reads (suc fuel) (String.◌∷◌ c t) read s last e h reads unreported few =
      elim (Piece-cases (piece (String.◌∷◌ c t))) [
        | inl (r, p) ↦ absurd (
            no_fault (path ∷ " contains an unexpected }} token" ∷ []) s (
              token_loop-quiet a path fuel r
                (fault (path ∷ " contains an unexpected }} token" ∷ []) s) last
                (rw (p, token_loop) at e) h))
        | inr (inl p) ↦
            let done = rw (p, token_loop) at e in
            let same : push (text (String.◌∷◌ c t)) s ≡ last = cc in
            rw (← same) (
              push_text-Reads a read (String.◌∷◌ c t) s reads,
              omega (arith, length-append s.tokens (text (String.◌∷◌ c t) ∷ [])),
            )
        | inr (inr (inl (x, p))) ↦
            let done = rw (p, token_loop) at e in
            absurd
              (no_fault (path ∷ " contains an unterminated {{ token" ∷ []) (push_text x s) (cc))
        | inr (inr (inr (x, raw, r, p))) ↦
            let before = push_text x s in
            let next = block_token a path raw before in
            let more = rw (p, token_loop) at e in
            let quiet = token_loop-quiet a path fuel r (check_limit path next) last more h in
            let added = block_token-Added a path raw before (check_limit-quiet path next quiet) in
            let unreported₁ : next.reported ≡ false =
              added.6 ∙ push_text-reported x s ∙ unreported in
            let (few₁, same) = quiet_limit path next unreported₁ quiet in
            let reads₁ =
              Added-Reads a (String.◌++◌ read x) raw before next (push_text-Reads a read x s reads)
                added in
            let (reads₂, few₂) =
              token_loop-Reads fuel r _ (check_limit path next) last more h (rw same reads₁)
                (rw same unreported₁) (rw same few₁) in
            (rw (piece-text (String.◌∷◌ c t) x raw r p, ← join_block read x raw r) reads₂, few₂)
      ]

  Reads-start : Reads a "" start
  Reads-start = (refl, refl, refl)

  -- The tokens of a template without errors print that template, nest to no more than the greatest
  -- depth with every block closed, name only allowed fields, and are at most 129.
  pub controlled_template_tokens-Reads :
      (template : String)
      → (controlled_template_tokens a path template).errors ≡ []
      → (print_tokens (controlled_template_tokens a path template).tokens ≡ template)
        × (depth_after a.max_depth (some 0) (controlled_template_tokens a path template).tokens
            ≡ some 0)
        × (all_named a (controlled_template_tokens a path template).tokens ≡ true)
        × (length (controlled_template_tokens a path template).tokens ≤ suc max_tokens)
  controlled_template_tokens-Reads template h =
      let (last, e, same) = controlled_template_tokens-returns a path template in
      let (closed, as_before) =
        quiet_unless (last.depth == 0) (path ∷ " contains an unclosed {{#if field}} block" ∷ [])
          last (ap (λ (x : Scan). x.errors) (sym same) ∙ h) in
      let whole = same ∙ as_before in
      let ((p, d, n), few) =
        token_loop-Reads (suc (length (codes template))) template "" start last e
          (ap (λ (x : Scan). x.errors) (sym whole) ∙ h) Reads-start refl (omega arith) in
      let shut : last.depth ≡ 0 = ground arith in
      rw whole (p ∙ nil-append template, d ∙ ap some shut, n, few)

-- ===== src/Notification/Templates/Split.antt =====
-- How a template is cut at its braces.
use autoform_panel.Notification.Templates.{
  utf16_length, unterminated, only_text, brace_open, brace_close, stray_close, block, piece,
  first_brace, closed_block, Piece, codes, after_prefix, split_pair,
}
use autoform_panel.Prelude.{
  ◌<◌, refl, ◌⊎◌, none, ltb, ℕ, suc, ◌≤◌, sym, ap, ◌∙◌, inl, inr, Option, List, Bool-cases,
  Option-cases, length, length-append, Char, code, String, ◌≡◌, true, ◌&&◌, some, ◌∷◌, ◌++◌, arith,
  ◌==◌,
}
use text.Mathlib.TextLemmas.{nil-append, cons-append}
use text.Mathlib.TextEquality.{codes_equal}
use Prim.Native.String

abbrev pub pair_of : Char → String → String
pair_of q s = String.◌∷◌ q (String.◌∷◌ q s)

same_code : (c d : Char) → (code c == code d) ≡ true → c ≡ d
same_code c d h = codes_equal c d (ground arith)

pub same_parts : {A B : Type 0} (p q : A × B) → some p ≡ some q → (p.0 ≡ q.0) × (p.1 ≡ q.1)
same_parts p q h = (cc, cc)

-- A text that is cut is the part before the pair, the pair, and the part after it.
pub split_pair-text :
    (q : Char) (s x r : String) → split_pair q s ≡ some (x, r) → s ≡ String.◌++◌ x (pair_of q r)
unfolding split_pair
split_pair-text q String.[] x r h = cc
split_pair-text q (String.◌∷◌ c String.[]) x r h = cc
split_pair-text q (String.◌∷◌ c (String.◌∷◌ d s)) x r h =
    elim (Bool-cases (code c == code q && code d == code q)) [
      | inl e ↦
          let parts : ◌≡◌ {A = Option (String × String)} (some ("", s)) (some (x, r)) = rw e at h in
          let (empty, rest) = same_parts _ _ parts in
          let one = same_code c q (ground (arith, e)) in
          let two = same_code d q (ground (arith, e)) in
          rw (← empty, ← rest, one, two) (sym (nil-append (pair_of q s)))
      | inr e ↦ elim (Option-cases (split_pair q (String.◌∷◌ d s))) [
        | inl n ↦ let broken = rw (e, n) at h in cc
        | inr ((y, t), n) ↦
            let parts : ◌≡◌ {A = Option (String × String)} (some (String.◌∷◌ c y, t))
                (some (x, r)) =
              rw (e, n) at h in
            let (front, rest) = same_parts _ _ parts in
            rw (← front, ← rest, cons-append c y (pair_of q t))
              (ap (String.◌∷◌ c) (split_pair-text q (String.◌∷◌ d s) y t n))
      ]
    ]

-- The code points of two texts put together.
pub codes-append : (s t : String) → codes (String.◌++◌ s t) ≡ codes s ++ codes t
codes-append String.[] t = ap codes (nil-append t)
codes-append (String.◌∷◌ c s) t =
    ap codes (cons-append c s t) ∙ ap (λ (l : List ℕ). code c ∷ l) (codes-append s t)

-- The text that follows a cut is shorter by two characters at least.
pub split_pair-length :
    (q : Char) (s x r : String)
    → split_pair q s ≡ some (x, r)
    → suc (suc (length (codes r))) ≤ length (codes s)
split_pair-length q s x r h =
    rw (split_pair-text q s x r h, codes-append x (pair_of q r))
      (omega (arith, length-append (codes x) (codes (pair_of q r))))

pub after_prefix-text : (p s r : String) → after_prefix p s ≡ some r → s ≡ String.◌++◌ p r
unfolding after_prefix
after_prefix-text String.[] s r h = let same : s ≡ r = cc in rw (nil-append r) same
after_prefix-text (String.◌∷◌ p ps) String.[] r h = cc
after_prefix-text (String.◌∷◌ p ps) (String.◌∷◌ c s) r h = elim (Bool-cases (code p == code c)) [
  | inl e ↦
      rw (same_code p c e, cons-append c ps r)
        (ap (String.◌∷◌ c) (after_prefix-text ps s r (rw e at h)))
  | inr e ↦ let broken = rw e at h in cc
]

closed_block-block :
    (before x raw r : String) (cut : Option (String × String))
    → closed_block before cut ≡ block x raw r
    → (before ≡ x) × ◌≡◌ {A = Option (String × String)} cut (some (raw, r))
closed_block-block before x raw r none h = cc
closed_block-block before x raw r (some (t, u)) h = (cc, cc)

closed_block-stray :
    (before r : String) (cut : Option (String × String))
    → ¬ (closed_block before cut ≡ stray_close r)
closed_block-stray before r none h = cc
closed_block-stray before r (some (t, u)) h = cc

-- A block was cut at an opening pair, and what follows that at a closing pair.
first_brace-block :
    (open_cut close_cut : Option (String × String)) (x raw r : String)
    → first_brace open_cut close_cut ≡ block x raw r
    → (after : String) × ◌≡◌ {A = Option (String × String)} open_cut (some (x, after))
      × ◌≡◌ {A = Option (String × String)} (split_pair brace_close after) (some (raw, r))
first_brace-block none none x raw r h = cc
first_brace-block none (some (y, t)) x raw r h = cc
first_brace-block (some (y, t)) none x raw r h =
    let (same, cut) = closed_block-block y x raw r (split_pair brace_close t) h in (t, rw same, cut)
first_brace-block (some (y, t)) (some (z, u)) x raw r h =
    elim (Bool-cases (ltb (utf16_length z) (utf16_length y))) [
      | inl e ↦ let broken = rw e at h in cc
      | inr e ↦
          let (same, cut) = closed_block-block y x raw r (split_pair brace_close t) (rw e at h) in
          (t, rw same, cut)
    ]

first_brace-stray :
    (open_cut close_cut : Option (String × String)) (r : String)
    → first_brace open_cut close_cut ≡ stray_close r
    → (x : String) × ◌≡◌ {A = Option (String × String)} close_cut (some (x, r))
first_brace-stray none none r h = cc
first_brace-stray none (some (y, t)) r h = (y, cc)
first_brace-stray (some (y, t)) none r h =
    absurd (closed_block-stray y r (split_pair brace_close t) h)
first_brace-stray (some (y, t)) (some (z, u)) r h =
    elim (Bool-cases (ltb (utf16_length z) (utf16_length y))) [
      | inl e ↦ let found = rw e at h in (z, cc)
      | inr e ↦ absurd (closed_block-stray y r (split_pair brace_close t) (rw e at h))
    ]

-- A block stands between what comes before its opening pair and what comes after its closing pair.
pub piece-text :
    (rest x raw r : String)
    → piece rest ≡ block x raw r
    → rest ≡ String.◌++◌ x (pair_of brace_open (String.◌++◌ raw (pair_of brace_close r)))
unfolding piece
piece-text rest x raw r h =
    let (after, one, two) =
      first_brace-block (split_pair brace_open rest) (split_pair brace_close rest) x raw r h in
    split_pair-text brace_open rest x after one
    ∙ ap (λ (t : String). String.◌++◌ x (pair_of brace_open t))
        (split_pair-text brace_close after raw r two)

pub piece-block-length :
    (rest x raw r : String) → piece rest ≡ block x raw r → length (codes r) < length (codes rest)
unfolding piece
piece-block-length rest x raw r h =
    let (after, one, two) =
      first_brace-block (split_pair brace_open rest) (split_pair brace_close rest) x raw r h in
    omega (
      arith,
      split_pair-length brace_open rest x after one,
      split_pair-length brace_close after raw r two,
    )

pub piece-stray-length :
    (rest r : String) → piece rest ≡ stray_close r → length (codes r) < length (codes rest)
unfolding piece
piece-stray-length rest r h =
    let (x, cut) =
      first_brace-stray (split_pair brace_open rest) (split_pair brace_close rest) r h in
    omega (arith, split_pair-length brace_close rest x r cut)

pub Piece-cases :
    (p : Piece)
    → ((r : String) × (p ≡ stray_close r))
      ⊎ ((p ≡ only_text)
          ⊎ (((x : String) × (p ≡ unterminated x))
              ⊎ ((x : String) × (raw : String) × (r : String) × (p ≡ block x raw r))))
Piece-cases (stray_close r) = inl (r, refl)
Piece-cases only_text = inr (inl refl)
Piece-cases (unterminated x) = inr (inr (inl (x, refl)))
Piece-cases (block x raw r) = inr (inr (inr (x, raw, r, refl)))

-- ===== src/Stats/Distinct.antt =====
-- Lemmas on the marks of keys.
use autoform_panel.Stats.{is_elsewhere, unless, mark, assigned_to, among, Marks}
use autoform_panel.Prelude.{
  ℕ, suc, ◌≤◌, String, ◌≡◌, refl, inl, inr, Bool, true, false, not, ◌&&◌, none, some, List, [], ◌∷◌,
  ◌++◌, arith, Option-cases,
}

pub nil-append {ℓ} : {A : Type ℓ} (xs ys : List A) → xs ++ ys ≡ [] → (xs ≡ []) × (ys ≡ [])
nil-append [] ys h = (refl, h)
nil-append (x ∷ xs) ys h = cc

pub unless-nil : (b : Bool) (parts : List String) → unless b parts ≡ [] → b ≡ true
unless-nil true parts h = refl
unless-nil false parts h = cc

module _ {K : Type 0} where
  abbrev pub keys : List (K × ℕ) → List K
  keys [] = []
  keys ((k, n) ∷ ks) = k ∷ keys ks

  abbrev pub rev_onto : List K → List K → List K
  rev_onto [] seen = seen
  rev_onto (k ∷ ks) seen = rev_onto ks (k ∷ seen)

module _ {K : Type 0} (same : K → K → Bool) where
  -- No key of the list is among those seen before it, nor among `seen`.
  abbrev pub all_new : List K → List K → Bool
  all_new seen [] = true
  all_new seen (k ∷ ks) = not (among same seen k) && all_new (k ∷ seen) ks

  pub all_new-append :
      (seen js ks : List K)
      → all_new seen (js ++ ks) ≡ (all_new seen js && all_new (rev_onto js seen) ks)
  all_new-append seen [] ks = refl
  all_new-append seen (j ∷ js) ks = ground (arith, all_new-append (j ∷ seen) js ks)

  -- Item `n` is the last that assigned a key, and the keys that it assigned are its own.
  abbrev pub Fits : ℕ → Marks K → Type 0
  Fits n marks =
      (k : K) (m : ℕ)
      → assigned_to same marks.assigned k ≡ some m
      → (m ≤ n) × (m ≡ n → among same marks.own k ≡ true)

  among-keys :
      (assigned : List (K × ℕ)) (k : K)
      → assigned_to same assigned k ≡ none
      → among same (keys assigned) k ≡ false
  among-keys [] k h = refl
  among-keys ((j, n) ∷ js) k h = ground (arith, among-keys js k)

  pub fresh-Fits :
      (n : ℕ) (k : K) (marks : Marks K)
      → Fits n marks
      → Fits n (record { own = k ∷ marks.own; assigned = (k, n) ∷ marks.assigned })
  fresh-Fits n k marks fits j m h = ground (arith, fits j m)

  -- The marks of an earlier item fit the next one, which has no key yet.
  pub Fits-next :
      (n : ℕ) (marks : Marks K)
      → Fits n marks
      → Fits (suc n) (record { own = []; assigned = marks.assigned })
  Fits-next n marks fits k m h = ground (arith, fits k m h)

  unassigned :
      (n : ℕ) (k : K) (marks : Marks K)
      → Fits n marks
      → among same marks.own k ≡ false
      → is_elsewhere same (assigned_to same marks.assigned k) n ≡ false
      → assigned_to same marks.assigned k ≡ none
  unassigned n k marks fits own elsewhere =
      elim (Option-cases (assigned_to same marks.assigned k)) [
        | inl e ↦ e
        | inr (m, e) ↦ absurd (ground (arith, fits k m e, e, own, elsewhere))
      ]

  -- A key that is marked without an error is declared and new.
  pub mark-fresh :
      (declared : Bool) (path twice elsewhere undeclared : String) (n : ℕ) (k : K) (marks : Marks K)
      → Fits n marks
      → (mark same declared path twice elsewhere undeclared n k marks).0 ≡ []
      → (declared ≡ true)
        × (among same (keys marks.assigned) k ≡ false)
        × ((mark same declared path twice elsewhere undeclared n k marks).1
            ≡ record { own = k ∷ marks.own; assigned = (k, n) ∷ marks.assigned })
  unfolding mark
  mark-fresh declared path twice elsewhere undeclared n k marks fits h =
      let own = unless (not (among same marks.own k)) (path ∷ twice ∷ []) in
      let other =
        unless (not (is_elsewhere same (assigned_to same marks.assigned k) n))
          (path ∷ elsewhere ∷ []) in
      let (ab, c) = nil-append (own ++ other) (unless declared (path ∷ undeclared ∷ [])) h in
      let (a, b) = nil-append own other ab in
      let not_own = unless-nil (not (among same marks.own k)) (path ∷ twice ∷ []) a in
      let not_other =
        unless-nil (not (is_elsewhere same (assigned_to same marks.assigned k) n))
          (path ∷ elsewhere ∷ []) b in
      let free = unassigned n k marks fits (ground (arith, not_own)) (ground (arith, not_other)) in
      (
        unless-nil declared (path ∷ undeclared ∷ []) c,
        among-keys marks.assigned k free,
        rw free refl,
      )

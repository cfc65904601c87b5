-- ===== src/Catalog/Result.antt =====
-- Results of code that may throw an `Error`; CatalogPublishConflictError of
-- api/catalog-constants.js is told apart by its callers.
use autoform_panel.Prelude.{◌⊎◌, inl, inr, String, ◌≡◌, refl, Bool, true, false, Option, none, some}

pub data Fault : Type 0 where
  conflict : Fault
  failed : String → Fault

pub data Result (Answer : Type 0) : Type 0 where
  err : Fault → Result Answer
  ok : Answer → Result Answer

module _ {Answer Next : Type 0} where
  infixl 5 ◌>>=◌ ◌>>◌
  -- `await` of a promise: the rest of the function runs unless it throws.
  abbrev pub ◌>>=◌ : Result Answer → (Answer → Result Next) → Result Next
  err fault >>= rest = err fault
  ok answer >>= rest = rest answer

  abbrev pub ◌>>◌ : Result Answer → Result Next → Result Next
  first >> rest = first >>= λ _. rest

  pub bind-eq-ok :
      (awaited : Result Answer) (rest : Answer → Result Next) {last : Next}
      → (awaited >>= rest) ≡ ok last
      → (answer : Answer) × (awaited ≡ ok answer) × (rest answer ≡ ok last)
  bind-eq-ok (err fault) rest returns = cc
  bind-eq-ok (ok answer) rest returns = (answer, refl, returns)

-- `if (!test) throw new Error(message)`
abbrev pub require : Bool → String → Result (Unit {0})
require true message = ok tt
require false message = err (failed message)

module _ {A : Type 0} where
  abbrev pub need : Option A → String → Result A
  need (some a) message = ok a
  need none message = err (failed message)

pub ok-injective : {A : Type 0} {a b : A} → ok a ≡ ok b → a ≡ b
ok-injective h = cc

pub Result-cases :
    {A : Type 0} (r : Result A) → ((fault : Fault) × (r ≡ err fault)) ⊎ ((a : A) × (r ≡ ok a))
Result-cases (err fault) = inl (fault, refl)
Result-cases (ok a) = inr (a, refl)

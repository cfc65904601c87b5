-- ===== src/Pairing/Storage/Bind.antt =====
-- Measures and invariants of the database through a sequence of statements.
use autoform_panel.Prelude.{ℕ, ◌≤◌, arith}
use autoform_panel.Pairing.Storage.{Db, Outcome, ok, threw, Exec, continue, ◌>>=◌}

module _ {A B : Type 0} (measure : Db → ℕ) where
  continue-le :
      (f : A → Exec B) (o : Outcome A × Db) (bound : ℕ)
      → measure o.1 ≤ bound
      → ((a : A) (d : Db) → measure (f a d).1 ≤ measure d)
      → measure (continue f o).1 ≤ bound
  continue-le f (ok a, d) bound h k = omega (arith, k a d)
  continue-le f (threw, d) bound h k = h

  pub bind-le :
      (m : Exec A) (f : A → Exec B) (db : Db)
      → measure (m db).1 ≤ measure db
      → ((a : A) (d : Db) → measure (f a d).1 ≤ measure d)
      → measure ((m >>= f) db).1 ≤ measure db
  bind-le m f db h k = continue-le f (m db) (measure db) h k

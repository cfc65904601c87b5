-- ===== src/Pairing/Storage.antt =====
-- stores/pairing-store.mjs: the SQL tables behind the objects, and the storage interface that an
-- object sees. The `class` column is one constant in a namespace and is left out.
-- Any statement may throw; the database carries the schedule of the faults to come.
pub mod Tables
pub mod Bind
use autoform_panel.Prelude.{
  ◌||◌, ℕ, String, Bool, false, ◌&&◌, Option, none, some, List, [], ◌∷◌, str_eq, if◌then◌else◌,
}
use autoform_panel.Js.Value.{Value, undefined}

pub record Row : Type 0 where
  pub name : String
  pub key : String
  pub value : Value

pub record Alarm : Type 0 where
  pub name : String
  pub at : ℕ

-- The tables do_storage and do_alarm; `faults` says of each later statement whether it throws.
pub record Db : Type 0 where
  pub rows : List Row
  pub alarms : List Alarm
  pub faults : List Bool

pub data Outcome {ℓ} (A : Type ℓ) : Type ℓ where
  ok : A → Outcome A
  threw : Outcome A

-- A computation over the database that may throw; what it wrote before stays written.
abbrev pub Exec : Type 0 → Type 0
Exec A = Db → Outcome A × Db

module _ {A : Type 0} where
  abbrev pub pure : A → Exec A
  pure a db = (ok a, db)

module _ {A B : Type 0} where
  abbrev pub continue : (A → Exec B) → Outcome A × Db → Outcome B × Db
  continue f (ok a, db) = f a db
  continue f (threw, db) = (threw, db)

  infixl 5 ◌>>=◌ ◌>>◌
  abbrev pub ◌>>=◌ : Exec A → (A → Exec B) → Exec B
  ◌>>=◌ m f db = continue f (m db)

  abbrev pub ◌>>◌ : Exec A → Exec B → Exec B
  m >> n = m >>= λ _. n

unfoldable pub faulty : List Bool → Bool
faulty [] = false
faulty (b ∷ bs) = b

unfoldable pub later : List Bool → List Bool
later [] = []
later (b ∷ bs) = bs

-- One statement: it throws and does nothing, or it runs.
module _ {A : Type 0} where
  unfoldable pub statement : (Db → A) → (Db → Db) → Exec A
  statement read write db =
      let next = record db { faults = later db.faults } in
      if faulty db.faults then (threw, next) else (ok (read db), write next)

abbrev pub find : List Row → String → String → Value
find [] name key = undefined
find (r ∷ rs) name key =
    if str_eq r.name name && str_eq r.key key then r.value else find rs name key

-- INSERT … ON CONFLICT DO UPDATE
abbrev pub upsert : List Row → String → String → Value → List Row
upsert [] name key v = record { name = name; key = key; value = v } ∷ []
upsert (r ∷ rs) name key v =
    if str_eq r.name name && str_eq r.key key
    then record r { value = v } ∷ rs
    else r ∷ upsert rs name key v

-- DELETE … WHERE name = ?
abbrev pub without : List Row → String → List Row
without [] name = []
without (r ∷ rs) name = let rest = without rs name in if str_eq r.name name then rest else r ∷ rest

-- Some row has this name.
abbrev pub holds : List Row → String → Bool
holds [] name = false
holds (r ∷ rs) name = str_eq r.name name || holds rs name

-- DELETE … WHERE name = ? AND key = ?
abbrev pub without_key : List Row → String → String → List Row
without_key [] name key = []
without_key (r ∷ rs) name key =
    let rest = without_key rs name key in
    if str_eq r.name name && str_eq r.key key then rest else r ∷ rest

abbrev pub alarm_at : List Alarm → String → Option ℕ
alarm_at [] name = none
alarm_at (a ∷ more) name = if str_eq a.name name then some a.at else alarm_at more name

abbrev pub schedule : List Alarm → String → ℕ → List Alarm
schedule [] name time = record { name = name; at = time } ∷ []
schedule (a ∷ more) name time =
    if str_eq a.name name then record a { at = time } ∷ more else a ∷ schedule more name time

abbrev pub cancel : List Alarm → String → List Alarm
cancel [] name = []
cancel (a ∷ more) name =
    let rest = cancel more name in if str_eq a.name name then rest else a ∷ rest

-- `storageFor(name)`: what an object may do with the rows of its name.
module _ (name : String) where
  unfoldable pub get_value : String → Exec Value
  unfolding statement
  get_value key = statement (λ db. find db.rows name key) (λ db. db)

  unfoldable pub put_value : String → Value → Exec (Unit {0})
  unfolding statement
  put_value key v = statement (λ db. tt) (λ db. record db { rows = upsert db.rows name key v })

  unfoldable pub delete_value : String → Exec (Unit {0})
  unfolding statement
  delete_value key = statement (λ db. tt) (λ db. record db { rows = without_key db.rows name key })

  unfoldable pub delete_all : Exec (Unit {0})
  unfolding statement
  delete_all = statement (λ db. tt) (λ db. record db { rows = without db.rows name })

  unfoldable pub set_alarm : ℕ → Exec (Unit {0})
  unfolding statement
  set_alarm time = statement (λ db. tt) (λ db. record db { alarms = schedule db.alarms name time })

  unfoldable pub get_alarm : Exec (Option ℕ)
  unfolding statement
  get_alarm = statement (λ db. alarm_at db.alarms name) (λ db. db)

  unfoldable pub delete_alarm : Exec (Unit {0})
  unfolding statement
  delete_alarm = statement (λ db. tt) (λ db. record db { alarms = cancel db.alarms name })

module _ {A : Type 0} where
  -- ROLLBACK restores both tables; the faults that happened have happened.
  abbrev rollback : Db → Db → Outcome A × Db
  rollback before db = (threw, record db { rows = before.rows; alarms = before.alarms })

  abbrev committed : Db → A → Outcome (Unit {0}) × Db → Outcome A × Db
  committed before a (ok _, db) = (ok a, db)
  committed before a (threw, db) = rollback before db

  abbrev settle : Db → Outcome A × Db → Outcome A × Db
  settle before (ok a, db) = committed before a (statement (λ db. tt) (λ db. db) db)
  settle before (threw, db) = rollback before db

  -- BEGIN stands outside the `try`, COMMIT inside it.
  unfoldable pub transaction : Exec A → Exec A
  unfolding statement
  transaction body = do statement (λ db. tt) (λ db. db); λ db. settle db (body db)

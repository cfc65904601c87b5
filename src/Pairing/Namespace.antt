-- ===== src/Pairing/Namespace.antt =====
-- `fetch` of the ticket store (api/app-pairing-store.js), and SqliteDurableObjectNamespace of
-- stores/pairing-store.mjs: requests to one object run one at a time, and a sweep runs the alarms
-- that are due. A run is a list of such events.
pub mod SingleUse
pub mod RateLimit
pub mod Alarms
pub mod Lifecycle
pub mod Isolation
pub mod Accepted
use autoform_panel.Prelude.{
  ℕ, zero, suc, String, false, not, Option, none, some, List, [], ◌∷◌, leb, str_eq, if◌then◌else◌,
}
use autoform_panel.Js.Value.{Value}
use autoform_panel.Pairing.Constants.{internal_origin}
use autoform_panel.Pairing.Storage.{
  Db, Alarm, Outcome, ok, threw, Exec, pure, ◌>>=◌, ◌>>◌, delete_alarm, statement,
}
use autoform_panel.Pairing.Messages.{Url}
use autoform_panel.Pairing.Store.{Reply, answer, issue, redeem, rate, alarm}

-- A request as the object reads it: `origin` is none where `new URL` throws, `body` what
-- `readSmallJson` returns.
pub record Request : Type 0 where
  pub method : String
  pub origin : Option String
  pub pathname : String
  pub body : Value

-- `catch { return internalResult(false, 503) }`
abbrev pub caught : Outcome Reply × Db → Reply × Db
caught (ok r, db) = (r, db)
caught (threw, db) = (answer false 503, db)

abbrev due : ℕ → List Alarm → List Alarm
due ms [] = []
due ms (a ∷ more) = let rest = due ms more in if leb a.at ms then a ∷ rest else rest

abbrev insert_alarm : Alarm → List Alarm → List Alarm
insert_alarm a [] = a ∷ []
insert_alarm a (b ∷ bs) = if leb a.at b.at then a ∷ b ∷ bs else b ∷ insert_alarm a bs

abbrev by_time : List Alarm → List Alarm
by_time [] = []
by_time (a ∷ more) = insert_alarm a (by_time more)

abbrev names_upto : ℕ → List Alarm → List String
names_upto zero alarms = []
names_upto (suc n) [] = []
names_upto (suc n) (a ∷ more) = a.name ∷ names_upto n more

-- SELECT name FROM do_alarm WHERE at <= ? ORDER BY at LIMIT 100
abbrev pub due_alarms : ℕ → Db → List String
due_alarms ms db = names_upto 100 (by_time (due ms db.alarms))

unfoldable pub fire_alarms : List String → Exec (Unit {0})
fire_alarms [] = pure tt
fire_alarms (name ∷ names) = do delete_alarm name; alarm name; fire_alarms names

-- runDueAlarms; an error ends the sweep.
unfoldable pub run_due_alarms : ℕ → Exec (Unit {0})
run_due_alarms ms = do names ← statement (due_alarms ms) (λ db. db); fire_alarms names

pub data Event : Type 0 where
  call : String → ℕ → Request → Event
  sweep : ℕ → Event

-- `none` is a sweep, which answers nobody.
abbrev pub after_sweep : Outcome (Unit {0}) × Db → Option Reply × Db
after_sweep (r, db) = (none, db)

abbrev pub replied : Reply × Db → Option Reply × Db
replied (r, db) = (some r, db)

module _ (parse_url : String → Option Url) where
  unfoldable pub route : String → ℕ → String → Value → Exec Reply
  route name ms path body db =
      if str_eq path "/v1/issue"
      then issue parse_url name ms body db
      else if str_eq path "/v1/redeem"
      then redeem parse_url name ms body db
      else if str_eq path "/v1/rate"
      then rate name ms body db
      else (ok (answer false 404), db)

  unfoldable pub fetch : String → ℕ → Request → Db → Reply × Db
  fetch name ms request db =
      if not (str_eq request.method "POST") then (answer false 404, db) else elim request.origin [
        | none ↦ (answer false 404, db)
        | some o ↦
            if not (str_eq o internal_origin)
            then (answer false 404, db)
            else caught (route name ms request.pathname request.body db)
      ]

  unfoldable pub step : Event → Db → Option Reply × Db
  step (call name ms request) db = replied (fetch name ms request db)
  step (sweep ms) db = after_sweep (run_due_alarms ms db)

  unfoldable pub run : List Event → Db → Db
  run [] db = db
  run (e ∷ es) db = run es (step e db).1

-- ===== src/Pairing/Storage/Tables.antt =====
-- The two tables of stores/pairing-store.mjs: what a lookup finds after each statement.
use autoform_panel.Prelude.{
  false, not, ◌||◌, ℕ, String, ◌≡◌, refl, ◌&&◌, none, some, [], ◌∷◌, List, arith, eq_iff, str_eq,
  if◌then◌else◌,
}
use autoform_panel.Js.Value.{Value, undefined}
use autoform_panel.Pairing.Storage.{
  holds, Row, Alarm, find, upsert, without, alarm_at, schedule, cancel,
}

pub find-upsert :
    (rs : List Row) (n k : String) (v : Value) (m j : String)
    → find (upsert rs n k v) m j ≡ (if str_eq n m && str_eq k j then v else find rs m j)
find-upsert [] n k v m j = refl
find-upsert (r ∷ rs) n k v m j = ground (
  arith,
  find-upsert rs n k v m j,
  eq_iff r.name n,
  eq_iff r.key k,
  eq_iff r.name m,
  eq_iff r.key j,
  eq_iff n m,
  eq_iff k j,
)

pub find-without :
    (rs : List Row) (n m j : String)
    → find (without rs n) m j ≡ (if str_eq n m then undefined else find rs m j)
find-without [] n m j = ground arith
find-without (r ∷ rs) n m j =
    ground (arith, find-without rs n m j, eq_iff r.name n, eq_iff r.name m, eq_iff n m)

pub alarm_at-schedule :
    (alarms : List Alarm) (n : String) (t : ℕ) (m : String)
    → alarm_at (schedule alarms n t) m ≡ (if str_eq n m then some t else alarm_at alarms m)
alarm_at-schedule [] n t m = refl
alarm_at-schedule (a ∷ more) n t m =
    ground (arith, alarm_at-schedule more n t m, eq_iff a.name n, eq_iff a.name m, eq_iff n m)

pub alarm_at-cancel :
    (alarms : List Alarm) (n m : String)
    → alarm_at (cancel alarms n) m ≡ (if str_eq n m then none else alarm_at alarms m)
alarm_at-cancel [] n m = ground arith
alarm_at-cancel (a ∷ more) n m =
    ground (arith, alarm_at-cancel more n m, eq_iff a.name n, eq_iff a.name m, eq_iff n m)

pub holds-upsert :
    (rs : List Row) (n k : String) (v : Value) (m : String)
    → holds (upsert rs n k v) m ≡ (str_eq n m || holds rs m)
holds-upsert [] n k v m = refl
holds-upsert (r ∷ rs) n k v m =
    ground (arith, holds-upsert rs n k v m, eq_iff r.name n, eq_iff r.name m, eq_iff n m)

pub holds-without :
    (rs : List Row) (n m : String) → holds (without rs n) m ≡ (not (str_eq n m) && holds rs m)
holds-without [] n m = ground arith
holds-without (r ∷ rs) n m =
    ground (arith, holds-without rs n m, eq_iff r.name n, eq_iff r.name m, eq_iff n m)

pub find_of_not_holds :
    (rs : List Row) (n k : String) → holds rs n ≡ false → find rs n k ≡ undefined
find_of_not_holds [] n k h = refl
find_of_not_holds (r ∷ rs) n k h = ground (arith, find_of_not_holds rs n k)

-- ===== src/Pairing/Namespace/Alarms.antt =====
-- Every object that holds a record has an alarm, so its storage is collected in the end.
use autoform_panel.Pairing.Namespace.Accepted.{caught-db}
use autoform_panel.Pairing.Namespace.SingleUse.Steps.{undefined-not-valid, redeemable-valid}
use autoform_panel.Pairing.Constants.{internal_origin, rate_record_key, ticket_record_key}
use autoform_panel.Pairing.Store.Effects.{
  rate_in_refused, rate_in_alarms, rate_in_accepted, redeem_refused, issue_refused, redeem_accepted,
  issue_accepted, redeem_alarms, ok_reply, issue_alarms,
}
use autoform_panel.Pairing.Storage.Tables.{
  holds-without, find_of_not_holds, holds-upsert, alarm_at-schedule, alarm_at-cancel,
}
use autoform_panel.Pairing.Store.{
  rate_record, current_epoch_seconds, rate_in, rate, issued_record, consumed_record, alarm, redeem,
  issue,
}
use autoform_panel.Js.Value.{Value}
use autoform_panel.Pairing.Namespace.{
  Request, route, fetch, due_alarms, fire_alarms, run_due_alarms,
}
use autoform_panel.Pairing.Messages.{valid_internal_rate, Url}
use autoform_panel.Pairing.Storage.{
  cancel, without, find, Row, later, faulty, delete_alarm, statement, alarm_at, holds, Db,
}
use autoform_panel.Prelude.{
  ◌+◌, [], Option-cases, refl, ap, ◌⊎◌, inl, inr, arith, eq_iff, str_eq, Bool-cases, ℕ, String, ◌≡◌,
  ◌≢◌, Bool, true, false, Option, none, List, ◌∷◌,
}

-- An alarm is set for each name that has a row.
abbrev pub IsScheduled : Db → Type 0
IsScheduled db = (m : String) → holds db.rows m ≡ true → alarm_at db.alarms m ≢ none

module _ (parse_url : String → Option Url) (n : String) (ms : ℕ) (body : Value) (db : Db) where
  -- Where an issue has written, it has set the alarm before.
  issue-holds :
      (m : String)
      → holds (issue parse_url n ms body db).1.rows m ≡ true
      → (str_eq n m ≡ true) ⊎ (holds db.rows m ≡ true)
  issue-holds m h = elim (Bool-cases (ok_reply (issue parse_url n ms body db).0)) [
    | inl done ↦
        let rows = (issue_accepted parse_url n ms body db done).0 in
        ground (
          arith,
          holds-upsert db.rows n ticket_record_key (issued_record body) m,
          ap (λ (r : List Row). holds r m) rows,
        )
    | inr refused ↦ inr (rw (issue_refused parse_url n ms body db refused) at h)
  ]

  issue-IsScheduled : IsScheduled db → IsScheduled (issue parse_url n ms body db).1
  issue-IsScheduled inv m h = elim (issue_alarms parse_url n ms body db) [
    | inl (same, rows) ↦ rw same (inv m (rw rows at h))
    | inr set_ ↦ rw (set_, alarm_at-schedule) (ground (arith, issue-holds m h, inv m))
  ]

  -- A redemption writes over the record that it has found.
  redeem-holds :
      (m : String) → holds (redeem parse_url n ms body db).1.rows m ≡ true → holds db.rows m ≡ true
  redeem-holds m h = elim (Bool-cases (ok_reply (redeem parse_url n ms body db).0)) [
    | inl done ↦
        let (now, e, r, rows) = redeem_accepted parse_url n ms body db done in
        ground (
          arith,
          eq_iff n m,
          ap (λ (t : List Row). holds t m) rows,
          holds-upsert db.rows n ticket_record_key
              (consumed_record (find db.rows n ticket_record_key) now) m,
          find_of_not_holds db.rows n ticket_record_key,
          redeemable-valid parse_url (find db.rows n ticket_record_key) body now r,
          undefined-not-valid parse_url,
        )
    | inr refused ↦ rw (redeem_refused parse_url n ms body db refused) at h
  ]

  redeem-IsScheduled : IsScheduled db → IsScheduled (redeem parse_url n ms body db).1
  redeem-IsScheduled inv m h = rw redeem_alarms (inv m (redeem-holds m h))

-- A sweep that fails while it clears an object: its alarm is gone and its rows are still there.
pub sweep_orphans :
    (ms : ℕ) (db : Db) (name : String) (names : List String) (later_faults : List Bool)
    → due_alarms ms db ≡ name ∷ names
    → db.faults ≡ false ∷ false ∷ true ∷ later_faults
    → ((run_due_alarms ms db).1.rows ≡ db.rows)
      × (alarm_at (run_due_alarms ms db).1.alarms name ≡ none)
unfolding run_due_alarms fire_alarms statement delete_alarm alarm faulty later
sweep_orphans ms db name names fs d f =
    rw (d, f) (refl, rw alarm_at-cancel (ground (arith, eq_iff name name)))

module _ (n : String) (ms : ℕ) (body : Value) (db : Db) where
  rate_in-holds :
      (time limit start seconds : ℕ) (m : String)
      → holds (rate_in n time limit start seconds db).1.rows m ≡ true
      → (str_eq n m ≡ true) ⊎ (holds db.rows m ≡ true)
  rate_in-holds time limit start seconds m h =
      elim (Bool-cases (ok_reply (rate_in n time limit start seconds db).0)) [
        | inl done ↦
            let (count, c, lt, rows) = rate_in_accepted n time limit start seconds db done in
            ground (
              arith,
              holds-upsert db.rows n rate_record_key (rate_record start seconds (count + 1)) m,
              ap (λ (r : List Row). holds r m) rows,
            )
        | inr refused ↦ inr (rw (rate_in_refused n time limit start seconds db refused) at h)
      ]

  rate_in-IsScheduled :
      (time limit start seconds : ℕ)
      → IsScheduled db
      → IsScheduled (rate_in n time limit start seconds db).1
  rate_in-IsScheduled time limit start seconds inv m h =
      elim (rate_in_alarms n time limit start seconds db) [
        | inl (same, rows) ↦ rw same (inv m (rw rows at h))
        | inr set_ ↦
            rw (set_, alarm_at-schedule)
              (ground (arith, rate_in-holds time limit start seconds m h, inv m))
      ]

  rate-IsScheduled : IsScheduled db → IsScheduled (rate n ms body db).1
  unfolding rate
  rate-IsScheduled inv = elim (Bool-cases (valid_internal_rate body)) [
    | inr bad ↦ rw bad inv
    | inl good ↦ elim (Option-cases (current_epoch_seconds ms)) [
      | inl no_time ↦ rw (good, no_time) inv
      | inr (now, e) ↦ rw (good, e) (rate_in-IsScheduled _ _ _ _ inv)
    ]
  ]

route-IsScheduled :
    (parse_url : String → Option Url) (n : String) (ms : ℕ) (path : String) (body : Value) (db : Db)
    → IsScheduled db
    → IsScheduled (route parse_url n ms path body db).1
unfolding route
route-IsScheduled parse_url n ms path body db inv = elim (Bool-cases (str_eq path "/v1/issue")) [
  | inl e ↦ rw e (issue-IsScheduled parse_url n ms body db inv)
  | inr not_issue ↦ elim (Bool-cases (str_eq path "/v1/redeem")) [
    | inl e ↦ rw (not_issue, e) (redeem-IsScheduled parse_url n ms body db inv)
    | inr not_redeem ↦ elim (Bool-cases (str_eq path "/v1/rate")) [
      | inl e ↦ rw (not_issue, not_redeem, e) (rate-IsScheduled n ms body db inv)
      | inr unknown ↦ rw (not_issue, not_redeem, unknown) inv
    ]
  ]
]

-- If an alarm is set for each name that has a record, then so it is after any request, also one
-- whose statements fail at any point.
pub fetch-IsScheduled :
    (parse_url : String → Option Url) (n : String) (ms : ℕ) (request : Request) (db : Db)
    → IsScheduled db
    → IsScheduled (fetch parse_url n ms request db).1
unfolding fetch
fetch-IsScheduled parse_url n ms request db inv = elim (Bool-cases (str_eq request.method "POST")) [
  | inr other ↦ rw other inv
  | inl post ↦ elim (Option-cases request.origin) [
    | inl no_url ↦ rw (post, no_url) inv
    | inr (o, e) ↦ elim (Bool-cases (str_eq o internal_origin)) [
      | inr outside ↦ rw (post, e, outside) inv
      | inl inside ↦
          rw (post, e, inside, caught-db (route parse_url n ms request.pathname request.body db))
            (route-IsScheduled parse_url n ms request.pathname request.body db inv)
    ]
  ]
]

fire_alarms-IsScheduled :
    (names : List String) (db : Db)
    → db.faults ≡ []
    → IsScheduled db
    → IsScheduled (fire_alarms names db).1
unfolding fire_alarms delete_alarm alarm faulty later
fire_alarms-IsScheduled [] db f inv = inv
fire_alarms-IsScheduled (n ∷ names) db f inv = rw f (
    fire_alarms-IsScheduled names
      (record { rows = without db.rows n; alarms = cancel db.alarms n; faults = [] }) refl
      λ m h. rw alarm_at-cancel (ground (arith, holds-without db.rows n m, inv m)))

-- A sweep whose statements all succeed keeps an alarm at each name that has a record.
pub run_due_alarms-IsScheduled :
    (ms : ℕ) (db : Db) → db.faults ≡ [] → IsScheduled db → IsScheduled (run_due_alarms ms db).1
unfolding run_due_alarms statement faulty later
run_due_alarms-IsScheduled ms db f inv =
    rw f (fire_alarms-IsScheduled (due_alarms ms db) (record db { faults = [] }) refl inv)

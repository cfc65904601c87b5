-- ===== src/Pairing/Store/Effects.antt =====
-- What each method of the ticket store does to the tables, faults included.
use autoform_panel.Pairing.Storage.Tables.{find-upsert}
use autoform_panel.Prelude.{
  Bool-cases, ℕ, ◌+◌, ◌*◌, ◌<◌, ◌≡◌, ◌⊎◌, inl, inr, String, Bool, true, false, Option, some, arith,
  Option-cases,
}
use autoform_panel.Js.Value.{Value, truthy, safe_nat}
use autoform_panel.Pairing.Constants.{ticket_record_key, rate_record_key}
use autoform_panel.Pairing.Storage.{Db, Outcome, ok, threw, find, upsert, schedule}
use autoform_panel.Pairing.Messages.{valid_internal_rate, Url, valid_internal_issue}
use autoform_panel.Pairing.Store.{
  rate, rate_in, Reply, issue, redeem, issued_record, consumed_record, expires_of, window_count,
  rate_record, current_epoch_seconds, redeemable,
}

abbrev pub ok_reply : Outcome Reply → Bool
ok_reply (ok r) = r.accepted
ok_reply threw = false

module _ (parse_url : String → Option Url) (name : String) (ms : ℕ) (body : Value) (db : Db) where
  pub issue_refused :
      ok_reply (issue parse_url name ms body db).0 ≡ false
      → (issue parse_url name ms body db).1.rows ≡ db.rows
  unfolding issue
  issue_refused h = ground arith

  pub issue_accepted :
      ok_reply (issue parse_url name ms body db).0 ≡ true
      → ((issue parse_url name ms body db).1.rows
          ≡ upsert db.rows name ticket_record_key (issued_record body))
        × (truthy (find db.rows name ticket_record_key) ≡ false)
        × (valid_internal_issue parse_url body ≡ true)
  unfolding issue
  issue_accepted h = ground arith

  pub redeem_refused :
      ok_reply (redeem parse_url name ms body db).0 ≡ false
      → (redeem parse_url name ms body db).1.rows ≡ db.rows
  unfolding redeem
  redeem_refused h = ground arith

  pub redeem_accepted :
      ok_reply (redeem parse_url name ms body db).0 ≡ true
      → (now : ℕ) × (current_epoch_seconds ms ≡ some now)
        × (redeemable parse_url (find db.rows name ticket_record_key) body (some now) ≡ true)
        × ((redeem parse_url name ms body db).1.rows
            ≡ upsert db.rows name ticket_record_key
                (consumed_record (find db.rows name ticket_record_key) now))
  unfolding redeem
  redeem_accepted h = elim (Option-cases (current_epoch_seconds ms)) [
    | inl none_now ↦ absurd (ground arith)
    | inr (now, e) ↦ (now, e, ground arith, ground arith)
  ]

  pub redeem_alarms : (redeem parse_url name ms body db).1.alarms ≡ db.alarms
  unfolding redeem
  redeem_alarms = ground arith

  -- A ticket is stored only where an alarm has been set.
  pub issue_alarms :
      ((issue parse_url name ms body db).1.alarms ≡ db.alarms)
        × ((issue parse_url name ms body db).1.rows ≡ db.rows)
      ⊎ ((issue parse_url name ms body db).1.alarms
          ≡ schedule db.alarms name ((expires_of body + 60) * 1000))
  unfolding issue
  issue_alarms = ground arith

module _ (name : String) (time limit start seconds : ℕ) (db : Db) where
  abbrev pub count_in : Option ℕ
  count_in = safe_nat (window_count (find db.rows name rate_record_key) start seconds)

  pub rate_in_refused :
      ok_reply (rate_in name time limit start seconds db).0 ≡ false
      → (rate_in name time limit start seconds db).1.rows ≡ db.rows
  unfolding rate_in
  rate_in_refused h = ground arith

  pub rate_in_accepted :
      ok_reply (rate_in name time limit start seconds db).0 ≡ true
      → (count : ℕ) × (count_in ≡ some count)
        × (count < limit)
        × ((rate_in name time limit start seconds db).1.rows
            ≡ upsert db.rows name rate_record_key (rate_record start seconds (count + 1)))
  unfolding rate_in
  rate_in_accepted h = elim (Option-cases count_in) [
    | inl c ↦ absurd (ground arith)
    | inr (count, c) ↦ (count, c, ground arith, ground arith)
  ]

  pub rate_in_alarms :
      ((rate_in name time limit start seconds db).1.alarms ≡ db.alarms)
        × ((rate_in name time limit start seconds db).1.rows ≡ db.rows)
      ⊎ ((rate_in name time limit start seconds db).1.alarms ≡ schedule db.alarms name time)
  unfolding rate_in
  rate_in_alarms = ground arith

ticket-rate_in :
    (name : String) (time limit start seconds : ℕ) (db : Db) (m : String)
    → find (rate_in name time limit start seconds db).1.rows m ticket_record_key
      ≡ find db.rows m ticket_record_key
ticket-rate_in name time limit start seconds db m =
    elim (Bool-cases (ok_reply (rate_in name time limit start seconds db).0)) [
      | inl done ↦
          let (count, c, lt, rows) = rate_in_accepted name time limit start seconds db done in
          rw rows (rw find-upsert (ground arith))
      | inr refused ↦ rw (rate_in_refused name time limit start seconds db refused)
    ]

-- A rate call leaves the tickets alone, of its own name too.
pub ticket-rate :
    (name : String) (ms : ℕ) (body : Value) (db : Db) (m : String)
    → find (rate name ms body db).1.rows m ticket_record_key ≡ find db.rows m ticket_record_key
unfolding rate
ticket-rate name ms body db m = elim (Bool-cases (valid_internal_rate body)) [
  | inr bad ↦ rw bad
  | inl good ↦ elim (Option-cases (current_epoch_seconds ms)) [
    | inl no_time ↦ ground arith
    | inr (now, e) ↦ rw (good, e) (ticket-rate_in name _ _ _ _ db m)
  ]
]

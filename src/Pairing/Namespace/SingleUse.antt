-- ===== src/Pairing/Namespace/SingleUse.antt =====
-- A ticket is redeemed at most once for each time that it is issued.
pub mod Steps
use autoform_panel.Pairing.Store.Effects.{redeem_accepted, ok_reply}
use autoform_panel.Pairing.Store.{consumed_record, expires_of, current_epoch_seconds, redeem, Reply}
use autoform_panel.Js.Value.{Value}
use autoform_panel.Pairing.Namespace.Accepted.{accepted_at}
use autoform_panel.Pairing.Constants.{ticket_record_key}
use autoform_panel.Pairing.Namespace.SingleUse.Steps.{
  find_here, redeemable-parts, Matches, step-live, live,
}
use autoform_panel.Pairing.Storage.{find, Db}
use autoform_panel.Pairing.Namespace.{step, run, Event}
use autoform_panel.Pairing.Messages.{valid_stored_ticket, Url}
use autoform_panel.Prelude.{
  ◌<◌, true, some, ◌+◌, ◌≤◌, String, ◌≡◌, false, Option, List, [], ◌∷◌, arith, ℕ,
}

module _ (parse_url : String → Option Url) (name : String) where
  -- Redemptions and issues of `name` that were accepted in a run.
  abbrev pub redemptions : List Event → Db → ℕ
  redemptions [] db = 0
  redemptions (e ∷ es) db =
      accepted_at "/v1/redeem" name e (step parse_url e db).0
      + redemptions es (step parse_url e db).1

  abbrev pub issues : List Event → Db → ℕ
  issues [] db = 0
  issues (e ∷ es) db =
      accepted_at "/v1/issue" name e (step parse_url e db).0 + issues es (step parse_url e db).1

  redemptions-live :
      (es : List Event) (db : Db)
      → redemptions es db + live parse_url (run parse_url es db) name
        ≤ issues es db + live parse_url db name
  unfolding run
  redemptions-live [] db = omega arith
  redemptions-live (e ∷ es) db =
      omega (arith, redemptions-live es (step parse_url e db).1, step-live parse_url e db name)

  -- Whatever requests, sweeps and faults a run has, at a name that holds no redeemable ticket at
  -- its start: it accepts no more redemptions of the name than issues.
  pub redemptions-le-issues :
      (es : List Event) (db : Db)
      → valid_stored_ticket parse_url (find db.rows name ticket_record_key) ≡ false
      → redemptions es db ≤ issues es db
  redemptions-le-issues es db h = ground (arith, redemptions-live es db)

  -- A run that accepts no issue of a name accepts at most one redemption of it.
  pub redemptions-le-one : (es : List Event) (db : Db) → issues es db ≡ 0 → redemptions es db ≤ 1
  redemptions-le-one es db h = ground (arith, redemptions-live es db)

-- What an accepted redemption at `now` has found, with `r` the stored record: a valid ticket that
-- is not yet consumed and has not expired, of the origin, the endpoint and the secret in the
-- message, for one of its applications. The record is marked consumed at `now`.
pub redeem_sound :
    (parse_url : String → Option Url) (name : String) (ms : ℕ) (body : Value) (db : Db)
    → ok_reply (redeem parse_url name ms body db).0 ≡ true
    → (now : ℕ) × (current_epoch_seconds ms ≡ some now)
      × (valid_stored_ticket parse_url (find db.rows name ticket_record_key) ≡ true)
      × Matches (find db.rows name ticket_record_key) body
      × (now < expires_of (find db.rows name ticket_record_key))
      × (find (redeem parse_url name ms body db).1.rows name ticket_record_key
          ≡ consumed_record (find db.rows name ticket_record_key) now)
redeem_sound parse_url name ms body db h =
    let (now, t, r, rows) = redeem_accepted parse_url name ms body db h in
    let stored = find db.rows name ticket_record_key in
    let parts = redeemable-parts parse_url stored body now r in
    (now, t, parts.0, parts.1, parts.2, rw (rows, find_here name (consumed_record stored now)))

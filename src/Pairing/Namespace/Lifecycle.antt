-- ===== src/Pairing/Namespace/Lifecycle.antt =====
-- A ticket from its issue to its redemption.
use autoform_panel.Pairing.Messages.Keys.{
  issued_record-valid, exact_object-is_plain, is_str-eq, get-issued_record,
}
use autoform_panel.Pairing.Constants.{redeem_endpoint, ticket_record_key}
use autoform_panel.Pairing.Namespace.SingleUse.Steps.{consumed-not-valid, find_here, Matches}
use autoform_panel.Js.Value.{undefined, str, is_plain_object, get, Value}
use autoform_panel.Pairing.Store.{
  consumed_record, answer, current_epoch_seconds, issued_record, redeem, issue, redeemable,
  expires_of,
}
use autoform_panel.Pairing.Storage.{schedule, ok, later, upsert, find, faulty, Db}
use autoform_panel.Pairing.Messages.{
  issue_keys, exact_object, valid_stored_ticket, valid_internal_issue, valid_ticket_fields,
  valid_internal_redeem, Url,
}
use autoform_panel.Prelude.{
  ℕ, ◌+◌, ◌*◌, ◌<◌, String, ◌≡◌, refl, inl, inr, true, false, Option, some, [], arith, leb, lt→ltb,
  &&-eq-true, Option-cases,
}

module _ (parse_url : String → Option Url) where
  endpoint_of_fields :
      (v : Value) → valid_ticket_fields parse_url v ≡ true → get v "endpoint" ≡ str redeem_endpoint
  unfolding valid_ticket_fields
  endpoint_of_fields v h = is_str-eq (get v "endpoint") redeem_endpoint (ground arith)

  endpoint_of_redeem :
      (v : Value)
      → valid_internal_redeem parse_url v ≡ true
      → get v "endpoint" ≡ str redeem_endpoint
  unfolding valid_internal_redeem
  endpoint_of_redeem v h = is_str-eq (get v "endpoint") redeem_endpoint (ground arith)

  expires-issued :
      (body : Value)
      → is_plain_object body ≡ true
      → expires_of (issued_record body) ≡ expires_of body
  unfolding expires_of
  expires-issued body p = rw (get-issued_record body "expires" refl p, expires_of)

  redeemable-issued :
      (issued request : Value) (now : ℕ)
      → valid_internal_issue parse_url issued ≡ true
      → valid_internal_redeem parse_url request ≡ true
      → Matches issued request
      → now < expires_of issued
      → redeemable parse_url (issued_record issued) request (some now) ≡ true
  unfolding redeemable
  redeemable-issued issued request now v w m lt =
      let parts =
        &&-eq-true (exact_object issued issue_keys) (valid_ticket_fields parse_url issued)
          (unfold valid_internal_issue in v) in
      let plain = exact_object-is_plain issued issue_keys parts.0 in
      rw
        (
          issued_record-valid parse_url issued v,
          get-issued_record issued "panelOrigin" refl plain,
          get-issued_record issued "endpoint" refl plain,
          get-issued_record issued "accessKeyHash" refl plain,
          get-issued_record issued "applicationId" refl plain,
          expires-issued issued plain,
          endpoint_of_fields issued parts.1,
          endpoint_of_redeem request w,
          m.origin,
          m.secret,
          m.allowed,
        )
        (lt→ltb now (expires_of issued) lt)

  module _ (n : String) (db : Db) (quiet : db.faults ≡ []) where
    -- The database after an issue.
    abbrev pub issued_db : Value → Db
    issued_db body = record {
      rows = upsert db.rows n ticket_record_key (issued_record body);
      alarms = schedule db.alarms n ((expires_of body + 60) * 1000);
      faults = [];
    }

    issue_fresh :
        (ms now : ℕ) (body : Value)
        → find db.rows n ticket_record_key ≡ undefined
        → valid_internal_issue parse_url body ≡ true
        → current_epoch_seconds ms ≡ some now
        → now < expires_of body
        → issue parse_url n ms body db ≡ (ok (answer true 200), issued_db body)
    unfolding issue faulty later
    issue_fresh ms now body fresh v t lt =
        let late : leb (expires_of body) now ≡ false = ground arith in rw (v, t, late, quiet, fresh)

    redeem_first :
        (ms now : ℕ) (request : Value)
        → valid_internal_redeem parse_url request ≡ true
        → current_epoch_seconds ms ≡ some now
        → redeemable parse_url (find db.rows n ticket_record_key) request (some now) ≡ true
        → redeem parse_url n ms request db ≡ (
          ok (answer true 200),
          record {
            rows =
                upsert db.rows n ticket_record_key
                  (consumed_record (find db.rows n ticket_record_key) now);
            alarms = db.alarms;
            faults = [];
          },
        )
    unfolding redeem faulty later
    redeem_first ms now request w t r = rw (w, quiet, t, r)

  redeem_dead :
      (n : String) (db : Db) (ms : ℕ) (request : Value)
      → db.faults ≡ []
      → valid_internal_redeem parse_url request ≡ true
      → valid_stored_ticket parse_url (find db.rows n ticket_record_key) ≡ false
      → (redeem parse_url n ms request db).0 ≡ ok (answer false 409)
  redeem_dead n db ms request quiet w dead = elim (Option-cases (current_epoch_seconds ms)) [
    | inl no_time ↦ unfold redeem faulty later in rw (w, quiet, no_time)
    | inr (now, t) ↦
        let no_match : redeemable parse_url (find db.rows n ticket_record_key) request (some now)
            ≡ false =
          unfold redeemable in rw dead in
        unfold redeem faulty later in rw (w, quiet, t, no_match)
  ]

-- Where no statement fails and the name holds no ticket: a valid issue message with time left is
-- accepted, a valid redemption that matches it and comes before it expires is accepted, and any
-- valid redemption after that is refused, at whatever time.
pub issue-redeem-redeem :
    (parse_url : String → Option Url) (n : String) (db : Db) (ms ms' ms'' now now' : ℕ)
    (body request again : Value)
    → db.faults ≡ []
    → find db.rows n ticket_record_key ≡ undefined
    → valid_internal_issue parse_url body ≡ true
    → valid_internal_redeem parse_url request ≡ true
    → valid_internal_redeem parse_url again ≡ true
    → Matches body request
    → current_epoch_seconds ms ≡ some now
    → now < expires_of body
    → current_epoch_seconds ms' ≡ some now'
    → now' < expires_of body
    → ((issue parse_url n ms body db).0 ≡ ok (answer true 200))
      × ((redeem parse_url n ms' request (issue parse_url n ms body db).1).0 ≡ ok (answer true 200))
      × ((redeem parse_url n ms'' again
            (redeem parse_url n ms' request (issue parse_url n ms body db).1).1).0
          ≡ ok (answer false 409))
issue-redeem-redeem parse_url n db ms ms' ms'' now now' body request again quiet fresh v w w' m t lt
      t' lt' =
    let first = issue_fresh parse_url n db quiet ms now body fresh v t lt in
    let found = find_here n (issued_record body) db.rows in
    let r = redeemable-issued parse_url body request now' v w m lt' in
    let db1 = issued_db parse_url n db quiet body in
    let second = redeem_first parse_url n db1 refl ms' now' request w t' (rw found r) in
    (
      rw first,
      rw (first, second),
      rw (first, second)
          (redeem_dead parse_url n _ ms'' again refl w' (
            rw (find_here n _ _)
              (consumed-not-valid parse_url (find db1.rows n ticket_record_key) now'))),
    )

-- ===== src/Pairing/Namespace/SingleUse/Steps.antt =====
-- How one event moves the redeemable ticket of a name.
use autoform_panel.Pairing.Namespace.Accepted.{caught-db, caught-ok, one_if, accepted_at}
use autoform_panel.Pairing.Storage.Bind.{bind-le}
use autoform_panel.Pairing.Storage.Tables.{find-without, find-upsert}
use autoform_panel.Pairing.Constants.{ticket_record_key}
use autoform_panel.Pairing.Store.Effects.{
  ticket-rate, redeem_accepted, issue_refused, redeem_refused, issue_accepted, ok_reply,
}
use autoform_panel.Js.Value.{get, strict_eq, undefined, Value}
use autoform_panel.Pairing.Storage.{upsert, Row, statement, delete_alarm, find, Db}
use autoform_panel.Pairing.Store.{
  includes, expires_of, alarm, redeemable, rate, redeem, issue, consumed_record,
}
use autoform_panel.Pairing.Namespace.{
  due_alarms, Request, run_due_alarms, route, fetch, sweep, step, fire_alarms, call, Event,
}
use autoform_panel.Pairing.Messages.{exact_object, Url, valid_stored_ticket}
use autoform_panel.Prelude.{
  ◌<◌, refl, [], ◌∷◌, true, eq_iff, List, arith, inr, inl, Bool-cases, some, ◌&&◌, str_eq,
  if◌then◌else◌, false, ◌≤◌, ◌≡◌, ◌+◌, Option, String, ℕ,
}

-- One where the name holds a ticket that `validStoredTicket` accepts, zero elsewhere.
abbrev pub live : (String → Option Url) → Db → String → ℕ
live parse_url db name =
    if valid_stored_ticket parse_url (find db.rows name ticket_record_key) then 1 else 0

pub consumed-not-valid :
    (parse_url : String → Option Url) (r : Value) (now : ℕ)
    → valid_stored_ticket parse_url (consumed_record r now) ≡ false
unfolding valid_stored_ticket exact_object
consumed-not-valid parse_url r now = refl

pub undefined-not-valid :
    (parse_url : String → Option Url) → valid_stored_ticket parse_url undefined ≡ false
unfolding valid_stored_ticket exact_object
undefined-not-valid parse_url = refl

pub redeemable-valid :
    (parse_url : String → Option Url) (r body : Value) (now : ℕ)
    → redeemable parse_url r body (some now) ≡ true
    → valid_stored_ticket parse_url r ≡ true
unfolding redeemable
redeemable-valid parse_url r body now h = ground arith

module _ (parse_url : String → Option Url) (n : String) (ms : ℕ) (body : Value) (db : Db)
    (m : String) where
  issue-live :
      live parse_url (issue parse_url n ms body db).1 m
      ≤ live parse_url db m + one_if (str_eq n m && ok_reply (issue parse_url n ms body db).0)
  issue-live = elim (Bool-cases (ok_reply (issue parse_url n ms body db).0)) [
    | inl yes_ ↦ rw (issue_accepted parse_url n ms body db yes_).0 (rw find-upsert (ground arith))
    | inr no_ ↦ rw (issue_refused parse_url n ms body db no_) (ground arith)
  ]

  redeem-live :
      live parse_url (redeem parse_url n ms body db).1 m
        + one_if (str_eq n m && ok_reply (redeem parse_url n ms body db).0)
      ≤ live parse_url db m
  redeem-live = elim (Bool-cases (ok_reply (redeem parse_url n ms body db).0)) [
    | inl done ↦
        let (now, e, r, rows) = redeem_accepted parse_url n ms body db done in
        let valid = redeemable-valid parse_url (find db.rows n ticket_record_key) body now r in
        let dead = consumed-not-valid parse_url (find db.rows n ticket_record_key) now in
        rw rows (rw find-upsert (ground (arith, eq_iff n m, valid, dead)))
    | inr refused ↦ rw (redeem_refused parse_url n ms body db refused) (ground arith)
  ]

module _ (parse_url : String → Option Url) (n : String) (ms : ℕ) (body : Value) (db : Db)
    (m : String) where
  rate-live : live parse_url (rate n ms body db).1 m ≡ live parse_url db m
  rate-live = rw (ticket-rate n ms body db m)

  route-live :
      (path : String)
      → live parse_url (route parse_url n ms path body db).1 m
          + one_if (
              str_eq n m
              && str_eq path "/v1/redeem"
              && ok_reply (route parse_url n ms path body db).0)
        ≤ live parse_url db m
          + one_if (
              str_eq n m
              && str_eq path "/v1/issue"
              && ok_reply (route parse_url n ms path body db).0)
  unfolding route
  route-live path = elim (Bool-cases (str_eq path "/v1/issue")) [
    | inl e ↦
        rw ((eq_iff path "/v1/issue").0 e) (ground (arith, issue-live parse_url n ms body db m))
    | inr other ↦ elim (Bool-cases (str_eq path "/v1/redeem")) [
      | inl e ↦
          rw ((eq_iff path "/v1/redeem").0 e) (ground (arith, redeem-live parse_url n ms body db m))
      | inr third ↦ ground (arith, rate-live)
    ]
  ]

fetch-live :
    (parse_url : String → Option Url) (n : String) (ms : ℕ) (request : Request) (db : Db)
    (m : String)
    → live parse_url (fetch parse_url n ms request db).1 m
        + one_if (
            str_eq n m
            && str_eq request.pathname "/v1/redeem"
            && (fetch parse_url n ms request db).0.accepted)
      ≤ live parse_url db m
        + one_if (
            str_eq n m
            && str_eq request.pathname "/v1/issue"
            && (fetch parse_url n ms request db).0.accepted)
unfolding fetch
fetch-live parse_url n ms request db m = ground (
  arith,
  caught-ok (route parse_url n ms request.pathname request.body db),
  caught-db (route parse_url n ms request.pathname request.body db),
  route-live parse_url n ms request.body db m request.pathname,
)

alarm-live :
    (parse_url : String → Option Url) (n : String) (db : Db) (m : String)
    → live parse_url (alarm n db).1 m ≤ live parse_url db m
unfolding alarm
alarm-live parse_url n db m =
    ground (arith, find-without db.rows n m ticket_record_key, undefined-not-valid parse_url)

delete_alarm-live :
    (parse_url : String → Option Url) (n : String) (db : Db) (m : String)
    → live parse_url (delete_alarm n db).1 m ≤ live parse_url db m
unfolding delete_alarm
delete_alarm-live parse_url n db m = ground arith

fire_alarms-live :
    (parse_url : String → Option Url) (names : List String) (db : Db) (m : String)
    → live parse_url (fire_alarms names db).1 m ≤ live parse_url db m
unfolding fire_alarms
fire_alarms-live parse_url [] db m = omega arith
fire_alarms-live parse_url (n ∷ names) db m =
    bind-le (λ d. live parse_url d m) (delete_alarm n) _ db (delete_alarm-live parse_url n db m)
      λ a d.
        bind-le (λ d. live parse_url d m) (alarm n) _ d (alarm-live parse_url n d m)
          λ b d'. fire_alarms-live parse_url names d' m

run_due_alarms-live :
    (parse_url : String → Option Url) (ms : ℕ) (db : Db) (m : String)
    → live parse_url (run_due_alarms ms db).1 m ≤ live parse_url db m
unfolding run_due_alarms
run_due_alarms-live parse_url ms db m =
    bind-le (λ d. live parse_url d m) (statement (due_alarms ms) (λ d. d)) _ db
      (unfold statement in ground arith) λ names d. fire_alarms-live parse_url names d m

pub step-live :
    (parse_url : String → Option Url) (e : Event) (db : Db) (m : String)
    → live parse_url (step parse_url e db).1 m
        + accepted_at "/v1/redeem" m e (step parse_url e db).0
      ≤ live parse_url db m + accepted_at "/v1/issue" m e (step parse_url e db).0
unfolding step
step-live parse_url (sweep ms) db m = omega (arith, run_due_alarms-live parse_url ms db m)
step-live parse_url (call n ms request) db m = fetch-live parse_url n ms request db m

-- The redeem message asks for the ticket of the issue message.

pub record Matches (issued request : Value) : Type 0 where
  pub origin : strict_eq (get issued "panelOrigin") (get request "panelOrigin") ≡ true
  pub secret : strict_eq (get issued "accessKeyHash") (get request "accessKeyHash") ≡ true
  pub allowed : includes (get request "allowedApplicationIds") (get issued "applicationId") ≡ true

pub find_here :
    (n : String) (v : Value) (rs : List Row)
    → find (upsert rs n ticket_record_key v) n ticket_record_key ≡ v
find_here n v rs = rw find-upsert (ground (arith, eq_iff n n))

pub redeemable-parts :
    (parse_url : String → Option Url) (r body : Value) (now : ℕ)
    → redeemable parse_url r body (some now) ≡ true
    → (valid_stored_ticket parse_url r ≡ true) × Matches r body × (now < expires_of r)
unfolding redeemable
redeemable-parts parse_url r body now h = (
  ground arith,
  record { origin = ground arith; secret = ground arith; allowed = ground arith },
  ground arith,
)

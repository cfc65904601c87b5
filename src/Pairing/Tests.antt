-- ===== src/Pairing/Tests.antt =====
-- Concrete runs of the ticket store.
use autoform_panel.Pairing.Namespace.Lifecycle.{issue-redeem-redeem}
use autoform_panel.Pairing.Namespace.Isolation.{fetch_isolated}
use autoform_panel.Pairing.Namespace.SingleUse.Steps.{Matches}
use autoform_panel.Pairing.Namespace.RateLimit.{allowed-le-limit, allowed}
use autoform_panel.Pairing.Namespace.Alarms.{
  sweep_orphans, run_due_alarms-IsScheduled, fetch-IsScheduled, IsScheduled,
}
use autoform_panel.Pairing.Namespace.SingleUse.{
  redeem_sound, redemptions-le-one, redemptions-le-issues, issues, redemptions,
}
use autoform_panel.Pairing.Store.{
  consumed_record, answer, issued_record, current_epoch_seconds, window_count, expires_of,
  redeemable, alarm, rate_in, rate, redeem, issue,
}
use autoform_panel.Js.Value.{from_list, arr, str, nat, object, Value}
use autoform_panel.Pairing.Messages.{
  exact_object, valid_allowed_ids, valid_lifetime, is_digest, is_application_id, is_canonical,
  valid_ticket_fields, valid_stored_ticket, valid_internal_rate, valid_internal_redeem,
  valid_internal_issue, Url,
}
use autoform_panel.Pairing.Namespace.{
  fire_alarms, run_due_alarms, run, step, fetch, route, call, Request, Event,
}
use autoform_panel.Pairing.Storage.{ok, find, alarm_at, statement, delete_alarm, later, faulty, Db}
use autoform_panel.Prelude.{
  ℕ, ◌<◌, arith, eq_iff, ◌≤◌, String, ◌≡◌, refl, true, false, Option, none, some, List, [], ◌∷◌,
  str_eq, if◌then◌else◌,
}

unfoldable pub ticket_store : Unit {0}
unfolding issue redeem rate rate_in alarm redeemable expires_of window_count current_epoch_seconds
    valid_internal_issue valid_internal_redeem valid_internal_rate valid_stored_ticket
    valid_ticket_fields is_canonical is_application_id is_digest valid_lifetime valid_allowed_ids
    exact_object faulty later route fetch step run run_due_alarms fire_alarms delete_alarm statement
ticket_store = tt

abbrev pub panel : String
panel = "https://panel.example.com"

-- A host parser that knows one address.
abbrev pub parse_panel : String → Option Url
parse_panel s =
    if str_eq s panel
    then some (record {
      scheme = "https:";
      username = "";
      password = "";
      origin = panel;
      pathname = "/";
      query = "";
      hash = "";
    })
    else none

abbrev pub digest_a : String
digest_a = "0123456789abcdef0123456789abcdef0123456789abcdef0123456789abcdef"

abbrev issue_message : Value
issue_message = object (
    ("version", nat 1)
    ∷ ("protocol", str "app-pair/v1")
    ∷ ("panelOrigin", str panel)
    ∷ ("endpoint", str "/api/app-pair/v1/redeem")
    ∷ ("applicationId", str "com.example.app")
    ∷ ("clientDigest", str digest_a)
    ∷ ("accessKeyHash", str digest_a)
    ∷ ("issuedAt", nat 1000)
    ∷ ("expires", nat 1300)
    ∷ [])

abbrev redeem_message : Value
redeem_message = object (
    ("version", nat 1)
    ∷ ("protocol", str "app-pair/v1")
    ∷ ("panelOrigin", str panel)
    ∷ ("endpoint", str "/api/app-pair/v1/redeem")
    ∷ ("allowedApplicationIds", arr (from_list (str "com.example.app" ∷ [])))
    ∷ ("accessKeyHash", str digest_a)
    ∷ [])

abbrev rate_message : Value
rate_message = object (("version", nat 1) ∷ ("limit", nat 2) ∷ ("windowSeconds", nat 60) ∷ [])

abbrev post : String → Value → Request
post path body = record {
  method = "POST";
  origin = some "https://app-pair.internal";
  pathname = path;
  body = body;
}

abbrev pub empty : Db
empty = record { rows = []; alarms = []; faults = [] }

-- A ticket is issued, its first redemption meets a failing COMMIT, the second succeeds, the third
-- finds it consumed.
abbrev faulty_db : Db
faulty_db = record empty {
  faults = false ∷ false ∷ false ∷ false ∷ false ∷ false ∷ false ∷ false ∷ true ∷ [];
}

abbrev ticket_events : List Event
ticket_events =
    call "t" 1000000 (post "/v1/issue" issue_message)
    ∷ call "t" 1001000 (post "/v1/redeem" redeem_message)
    ∷ call "t" 1002000 (post "/v1/redeem" redeem_message)
    ∷ call "t" 1003000 (post "/v1/redeem" redeem_message)
    ∷ []

ticket_counts :
    (redemptions parse_panel "t" ticket_events faulty_db ≡ 1)
    × (issues parse_panel "t" ticket_events faulty_db ≡ 1)
unfolding ticket_store
ticket_counts = (refl, refl)

redemptions-le-issues_example :
    redemptions parse_panel "t" ticket_events faulty_db
    ≤ issues parse_panel "t" ticket_events faulty_db
unfolding ticket_store
redemptions-le-issues_example = redemptions-le-issues parse_panel "t" ticket_events faulty_db refl

-- The database that holds the issued ticket.
abbrev issued : Db
issued = record {
  rows = record { name = "t"; key = "ticket-v1"; value = issued_record issue_message } ∷ [];
  alarms = record { name = "t"; at = 1360000 } ∷ [];
  faults = [];
}

abbrev two_redemptions : List Event
two_redemptions =
    call "t" 1002000 (post "/v1/redeem" redeem_message)
    ∷ call "t" 1003000 (post "/v1/redeem" redeem_message)
    ∷ []

redemptions-le-one_example : redemptions parse_panel "t" two_redemptions issued ≤ 1
unfolding ticket_store
redemptions-le-one_example = redemptions-le-one parse_panel "t" two_redemptions issued refl

redeem_sound_example :
    (now : ℕ) × (current_epoch_seconds 1002000 ≡ some now)
    × (valid_stored_ticket parse_panel (issued_record issue_message) ≡ true)
    × Matches (issued_record issue_message) redeem_message
    × (now < expires_of (issued_record issue_message))
    × (find (redeem parse_panel "t" 1002000 redeem_message issued).1.rows "t" "ticket-v1"
        ≡ consumed_record (issued_record issue_message) now)
unfolding ticket_store
redeem_sound_example = redeem_sound parse_panel "t" 1002000 redeem_message issued refl

issue-redeem-redeem_example :
    ((issue parse_panel "t" 1000000 issue_message empty).0 ≡ ok (answer true 200))
    × ((redeem parse_panel "t" 1299999 redeem_message
          (issue parse_panel "t" 1000000 issue_message empty).1).0
        ≡ ok (answer true 200))
    × ((redeem parse_panel "t" 5000 redeem_message
          (redeem parse_panel "t" 1299999 redeem_message
            (issue parse_panel "t" 1000000 issue_message empty).1).1).0
        ≡ ok (answer false 409))
unfolding ticket_store
issue-redeem-redeem_example =
    issue-redeem-redeem parse_panel "t" empty 1000000 1299999 5000 1000 1299 issue_message
      redeem_message redeem_message refl refl refl refl refl
      (record { origin = refl; secret = refl; allowed = refl }) refl (omega arith) refl
      (omega arith)

-- Three rate calls in one window with the limit two.
abbrev rate_events : List Event
rate_events =
    call "r" 60000 (post "/v1/rate" rate_message)
    ∷ call "r" 90000 (post "/v1/rate" rate_message)
    ∷ call "r" 119999 (post "/v1/rate" rate_message)
    ∷ []

rate_counts : allowed parse_panel "r" rate_events empty ≡ 2
unfolding ticket_store
rate_counts = refl

allowed-le-limit_example : allowed parse_panel "r" rate_events empty ≤ 2
unfolding ticket_store
allowed-le-limit_example = allowed-le-limit parse_panel "r" 2 60 60 rate_events empty (
  (λ _. (60, refl, refl, refl, refl)),
  ((λ _. (90, refl, refl, refl, refl)), ((λ _. (119, refl, refl, refl, refl)), tt)),
)

fetch_isolated_example :
    find
      (fetch parse_panel "s" 1000000 (post "/v1/issue" issue_message) issued).1.rows
      "t"
      "ticket-v1"
    ≡ issued_record issue_message
fetch_isolated_example =
    fetch_isolated parse_panel "s" 1000000 (post "/v1/issue" issue_message) issued "t" "ticket-v1"
      (ground (arith, eq_iff "s" "t"))

empty-IsScheduled : IsScheduled empty
empty-IsScheduled m h = cc

-- The COMMIT of the issue fails.
abbrev failing_commit : Db
failing_commit = record empty { faults = false ∷ false ∷ false ∷ false ∷ true ∷ [] }

failing-IsScheduled : IsScheduled failing_commit
failing-IsScheduled m h = cc

fetch-IsScheduled_example :
    IsScheduled (fetch parse_panel "t" 1000000 (post "/v1/issue" issue_message) failing_commit).1
fetch-IsScheduled_example =
    fetch-IsScheduled parse_panel "t" 1000000 (post "/v1/issue" issue_message) failing_commit
      failing-IsScheduled

issued-IsScheduled : IsScheduled issued
issued-IsScheduled m h = ground arith

run_due_alarms-IsScheduled_example : IsScheduled (run_due_alarms 1360000 issued).1
run_due_alarms-IsScheduled_example =
    run_due_alarms-IsScheduled 1360000 issued refl issued-IsScheduled

abbrev failing_sweep : Db
failing_sweep = record issued { faults = false ∷ false ∷ true ∷ [] }

sweep_orphans_example :
    ((run_due_alarms 1360000 failing_sweep).1.rows ≡ issued.rows)
    × (alarm_at (run_due_alarms 1360000 failing_sweep).1.alarms "t" ≡ none)
sweep_orphans_example = sweep_orphans 1360000 failing_sweep "t" [] [] refl refl

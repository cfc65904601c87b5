-- ===== src/Pairing/Namespace/RateLimit/Steps.antt =====
-- How one event moves the count of a rate window.
use autoform_panel.Pairing.Namespace.Isolation.{route-find_rate}
use autoform_panel.Pairing.Storage.Tables.{find-upsert}
use autoform_panel.Pairing.Store.Effects.{rate_in_refused, rate_in_accepted, ok_reply}
use autoform_panel.Pairing.Constants.{rate_record_key}
use autoform_panel.Pairing.Namespace.Accepted.{caught-db, caught-ok, accepted_at, one_if}
use autoform_panel.Pairing.Store.{
  rate, window_start, size_of, rate_record, rate_in, current_epoch_seconds, window_count,
}
use autoform_panel.Pairing.Messages.{Url, valid_internal_rate}
use autoform_panel.Js.Value.{get, nat, safe_nat, Value}
use autoform_panel.Pairing.Namespace.{Request, fetch, route, step, sweep, call, Event}
use autoform_panel.Pairing.Storage.{upsert, find, Db}
use autoform_panel.Prelude.{
  &&-eq-true, ◌-◌, inl, inr, eq_iff, Bool-cases, ℕ, ◌+◌, ◌≤◌, String, ◌≡◌, true, ◌&&◌, Option, none,
  some, arith, str_eq,
}

abbrev pub Uses : ℕ → ℕ → ℕ → ℕ → Value → Type 0
Uses limit start seconds ms body =
    (now : ℕ) × (current_epoch_seconds ms ≡ some now)
    × (window_start now seconds ≡ start)
    × (size_of (get body "limit") ≡ limit)
    × (size_of (get body "windowSeconds") ≡ seconds)

-- The event is no sweep, and if it is a rate call of `name`, it falls into the window.
abbrev pub InWindow : String → ℕ → ℕ → ℕ → Event → Type 0
InWindow name limit start seconds (call n ms request) =
    (str_eq n name && str_eq request.pathname "/v1/rate") ≡ true
    → Uses limit start seconds ms request.body
InWindow name limit start seconds (sweep ms) = ⊥

abbrev pub count_or : ℕ → Option ℕ → ℕ
count_or full none = full
count_or full (some n) = n

-- What the stored record has used of the window; all of it, where the record's count is no number.
abbrev pub used : String → ℕ → ℕ → ℕ → Db → ℕ
used name limit start seconds db =
    count_or limit (safe_nat (window_count (find db.rows name rate_record_key) start seconds))

rate_limit-small :
    (body : Value) → valid_internal_rate body ≡ true → size_of (get body "limit") ≤ 10000
unfolding valid_internal_rate
rate_limit-small body h = ground arith

safe_small : (n : ℕ) → n ≤ 10000 → safe_nat (nat n) ≡ some n
safe_small n h = ground arith

window_count-rate_record :
    (start seconds n : ℕ) → window_count (rate_record start seconds n) start seconds ≡ nat n
unfolding window_count
window_count-rate_record start seconds n = ground arith

find_here :
    (db : Db) (name : String) (v : Value)
    → find (upsert db.rows name rate_record_key v) name rate_record_key ≡ v
find_here db name v = rw find-upsert (ground (arith, eq_iff name name))

-- What is left of the window.
abbrev pub room : String → ℕ → ℕ → ℕ → Db → ℕ
room name limit start seconds db = limit - used name limit start seconds db

room_of_rows :
    (name : String) (limit start seconds : ℕ) (d db : Db)
    → find d.rows name rate_record_key ≡ find db.rows name rate_record_key
    → room name limit start seconds d ≡ room name limit start seconds db
room_of_rows name limit start seconds d db e = rw e

room-rate_in :
    (name : String) (time limit start seconds : ℕ) (db : Db)
    → limit ≤ 10000
    → one_if (ok_reply (rate_in name time limit start seconds db).0)
        + room name limit start seconds (rate_in name time limit start seconds db).1
      ≤ room name limit start seconds db
room-rate_in name time limit start seconds db small =
    elim (Bool-cases (ok_reply (rate_in name time limit start seconds db).0)) [
      | inl done ↦
          let (count, c, lt, rows) = rate_in_accepted name time limit start seconds db done in
          rw
            (
              done,
              rows,
              find_here db name (rate_record start seconds (count + 1)),
              window_count-rate_record start seconds (count + 1),
              safe_small (count + 1) (omega arith),
              c,
            )
            (omega arith)
      | inr refused ↦
          rw (refused, rate_in_refused name time limit start seconds db refused) (omega arith)
    ]

room-rate :
    (name : String) (limit start seconds ms : ℕ) (body : Value) (db : Db)
    → Uses limit start seconds ms body
    → one_if (ok_reply (rate name ms body db).0)
        + room name limit start seconds (rate name ms body db).1
      ≤ room name limit start seconds db
unfolding rate
room-rate name limit start seconds ms body db (now, t, s, l, w) =
    elim (Bool-cases (valid_internal_rate body)) [
      | inr bad ↦ rw bad (omega arith)
      | inl good ↦
          let small = rate_limit-small body good in
          rw (good, t, l, w, s)
            (room-rate_in name _ limit start seconds db (omega (arith, small, l)))
    ]

room-route :
    (parse_url : String → Option Url) (name : String) (limit start seconds : ℕ) (n : String)
    (ms : ℕ) (path : String) (body : Value) (db : Db)
    → ((str_eq n name && str_eq path "/v1/rate") ≡ true → Uses limit start seconds ms body)
    → one_if (
          str_eq n name && str_eq path "/v1/rate" && ok_reply (route parse_url n ms path body db).0)
        + room name limit start seconds (route parse_url n ms path body db).1
      ≤ room name limit start seconds db
room-route parse_url name limit start seconds n ms path body db h =
    elim (Bool-cases (str_eq n name && str_eq path "/v1/rate")) [
      | inl here ↦
          let (same, at) = &&-eq-true (str_eq n name) (str_eq path "/v1/rate") here in
          rw ((eq_iff n name).0 same, (eq_iff path "/v1/rate").0 at)
            (unfold route in
              ground
                (arith, eq_iff name name, room-rate name limit start seconds ms body db (h here)))
      | inr other ↦
          let e = route-find_rate parse_url n ms body db path name other in
          rw (room_of_rows name limit start seconds (route parse_url n ms path body db).1 db e)
            (ground arith)
    ]

fetch-room :
    (parse_url : String → Option Url) (name : String) (limit start seconds : ℕ) (n : String)
    (ms : ℕ) (request : Request) (db : Db)
    → ((str_eq n name && str_eq request.pathname "/v1/rate") ≡ true
        → Uses limit start seconds ms request.body)
    → one_if (
          str_eq n name
          && str_eq request.pathname "/v1/rate"
          && (fetch parse_url n ms request db).0.accepted)
        + room name limit start seconds (fetch parse_url n ms request db).1
      ≤ room name limit start seconds db
unfolding fetch
fetch-room parse_url name limit start seconds n ms request db h = ground (
  arith,
  caught-ok (route parse_url n ms request.pathname request.body db),
  caught-db (route parse_url n ms request.pathname request.body db),
  room-route parse_url name limit start seconds n ms request.pathname request.body db h,
)

pub step-room :
    (parse_url : String → Option Url) (name : String) (limit start seconds : ℕ) (e : Event)
    (db : Db)
    → InWindow name limit start seconds e
    → accepted_at "/v1/rate" name e (step parse_url e db).0
        + room name limit start seconds (step parse_url e db).1
      ≤ room name limit start seconds db
unfolding step
step-room parse_url name limit start seconds (sweep ms) db h = absurd h
step-room parse_url name limit start seconds (call n ms request) db h =
    fetch-room parse_url name limit start seconds n ms request db h

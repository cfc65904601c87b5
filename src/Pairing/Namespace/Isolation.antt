-- ===== src/Pairing/Namespace/Isolation.antt =====
-- A request to one object leaves the records of every other object as they were.
use autoform_panel.Pairing.Storage.Tables.{find-upsert}
use autoform_panel.Pairing.Store.Effects.{
  redeem_refused, rate_in_refused, issue_refused, redeem_accepted, rate_in_accepted, issue_accepted,
  ok_reply,
}
use autoform_panel.Pairing.Namespace.Accepted.{caught-db}
use autoform_panel.Pairing.Constants.{ticket_record_key, rate_record_key}
use autoform_panel.Pairing.Store.{current_epoch_seconds, redeem, rate_in, issue, rate}
use autoform_panel.Pairing.Storage.{find, Db}
use autoform_panel.Js.Value.{Value}
use autoform_panel.Pairing.Namespace.{route, Request, fetch}
use autoform_panel.Pairing.Messages.{valid_internal_rate, Url}
use autoform_panel.Prelude.{
  ℕ, String, ◌≡◌, ◌≢◌, inl, inr, true, false, ◌&&◌, Option, arith, eq_iff, str_eq, Bool-cases,
  Option-cases,
}

module _ (parse_url : String → Option Url) (n : String) (ms : ℕ) (body : Value) (db : Db) where
  issue-find :
      (m j : String)
      → (str_eq n m && str_eq ticket_record_key j) ≡ false
      → find (issue parse_url n ms body db).1.rows m j ≡ find db.rows m j
  issue-find m j h = elim (Bool-cases (ok_reply (issue parse_url n ms body db).0)) [
    | inl done ↦ rw ((issue_accepted parse_url n ms body db done).0, find-upsert, h)
    | inr refused ↦ rw (issue_refused parse_url n ms body db refused)
  ]

  redeem-find :
      (m j : String)
      → (str_eq n m && str_eq ticket_record_key j) ≡ false
      → find (redeem parse_url n ms body db).1.rows m j ≡ find db.rows m j
  redeem-find m j h = elim (Bool-cases (ok_reply (redeem parse_url n ms body db).0)) [
    | inl done ↦
        let (now, e, r, rows) = redeem_accepted parse_url n ms body db done in
        rw (rows, find-upsert, h)
    | inr refused ↦ rw (redeem_refused parse_url n ms body db refused)
  ]

  rate_in-find :
      (time limit start seconds : ℕ) (m j : String)
      → (str_eq n m && str_eq rate_record_key j) ≡ false
      → find (rate_in n time limit start seconds db).1.rows m j ≡ find db.rows m j
  rate_in-find time limit start seconds m j h =
      elim (Bool-cases (ok_reply (rate_in n time limit start seconds db).0)) [
        | inl done ↦
            let (count, c, lt, rows) = rate_in_accepted n time limit start seconds db done in
            rw (rows, find-upsert, h)
        | inr refused ↦ rw (rate_in_refused n time limit start seconds db refused)
      ]

  rate-find :
      (m j : String)
      → (str_eq n m && str_eq rate_record_key j) ≡ false
      → find (rate n ms body db).1.rows m j ≡ find db.rows m j
  unfolding rate
  rate-find m j h = elim (Bool-cases (valid_internal_rate body)) [
    | inr bad ↦ rw bad
    | inl good ↦ elim (Option-cases (current_epoch_seconds ms)) [
      | inl no_time ↦ ground arith
      | inr (now, e) ↦ rw (good, e) (rate_in-find _ _ _ _ m j h)
    ]
  ]

  -- Tickets are read and written on the paths of tickets alone, counts on the path of counts.
  pub route-find_ticket :
      (path m : String)
      → str_eq path "/v1/rate" ≡ true
      → find (route parse_url n ms path body db).1.rows m ticket_record_key
        ≡ find db.rows m ticket_record_key
  unfolding route
  route-find_ticket path m h =
      rw ((eq_iff path "/v1/rate").0 h) (rate-find m ticket_record_key (ground arith))

  pub route-find_rate :
      (path m : String)
      → (str_eq n m && str_eq path "/v1/rate") ≡ false
      → find (route parse_url n ms path body db).1.rows m rate_record_key
        ≡ find db.rows m rate_record_key
  unfolding route
  route-find_rate path m h = ground (
    arith,
    issue-find m rate_record_key,
    redeem-find m rate_record_key,
    rate-find m rate_record_key,
  )

  route-find_other :
      (path m j : String)
      → str_eq n m ≡ false
      → find (route parse_url n ms path body db).1.rows m j ≡ find db.rows m j
  unfolding route
  route-find_other path m j h = ground (arith, issue-find m j, redeem-find m j, rate-find m j)

-- A request to one name changes no record of another name, whatever it answers.
pub fetch_isolated :
    (parse_url : String → Option Url) (n : String) (ms : ℕ) (request : Request) (db : Db)
    (m j : String)
    → n ≢ m
    → find (fetch parse_url n ms request db).1.rows m j ≡ find db.rows m j
unfolding fetch
fetch_isolated parse_url n ms request db m j h = ground (
  arith,
  eq_iff n m,
  caught-db (route parse_url n ms request.pathname request.body db),
  route-find_other parse_url n ms request.body db request.pathname m j,
)

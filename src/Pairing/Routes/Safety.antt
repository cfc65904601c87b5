-- ===== src/Pairing/Routes/Safety.antt =====
-- What the two endpoints give out, and on which conditions.
use autoform_panel.Pairing.Http.{read_small_json}
use autoform_panel.Pairing.Namespace.SingleUse.{redeem_sound}
use autoform_panel.Pairing.Namespace.Accepted.{caught-db}
use Prim.Native.String
use autoform_panel.Pairing.Namespace.SingleUse.Steps.{Matches}
use autoform_panel.Pairing.Store.Effects.{ticket-rate, ok_reply}
use autoform_panel.Pairing.Storage.{threw, ok, Outcome, find, Db}
use autoform_panel.Pairing.Namespace.{caught, route, fetch}
use autoform_panel.Js.Value.{Value}
use autoform_panel.Pairing.Constants.{max_body_bytes, redeem_source, ticket_record_key, RatePolicy}
use autoform_panel.Pairing.Messages.{valid_stored_ticket, Url}
use autoform_panel.Pairing.Store.{
  current_epoch_seconds, consumed_record, expires_of, rate, Reply, redeem,
}
use autoform_panel.Pairing.Routes.{
  or_empty, redeem_ticket, handle_redeem, redeem_message, redeem_request, ticket_name, access_key,
  redeem_if, redeem_answer, then_rate, rate_message, granted, AppRequest, redeem_rate_allowed,
  consume_rate, call_ticket_store,
}
use autoform_panel.Pairing.Configuration.{base_configuration, Env, Configuration, Host}
use autoform_panel.Prelude.{
  some, str_eq, Bool-cases, ◌<◌, ◌∙◌, inl, inr, Bool, false, Option-cases, ℕ, String, ◌≡◌, refl,
  true, Option, arith, ◌==◌,
}

-- The ticket store answers 200 to a redemption exactly where it accepts it.
redeem_status :
    (parse_url : String → Option Url) (n : String) (ms : ℕ) (body : Value) (db : Db)
    → ((caught (redeem parse_url n ms body db)).0.status == 200) ≡ true
    → ok_reply (redeem parse_url n ms body db).0 ≡ true
unfolding redeem
redeem_status parse_url n ms body db h = ground arith

module _ (host : Host) where
  granted-db : (p : Reply × Db) → (granted host p).1 ≡ p.1
  granted-db (r, db) = refl

  call_redeem :
      (name : String) (body : Value) (ms : ℕ) (db : Db)
      → call_ticket_store host name "/v1/redeem" body ms db
        ≡ caught (redeem host.parse_url name ms body db)
  unfolding call_ticket_store fetch route
  call_redeem name body ms db = refl

  call_rate :
      (name : String) (body : Value) (ms : ℕ) (db : Db)
      → call_ticket_store host name "/v1/rate" body ms db ≡ caught (rate name ms body db)
  unfolding call_ticket_store fetch route
  call_rate name body ms db = refl

  -- Charging a rate limit leaves the tickets alone.
  consume_rate-ticket :
      (name : String) (policy : RatePolicy) (ms : ℕ) (db : Db) (m : String)
      → find (consume_rate host name policy ms db).1.rows m ticket_record_key
        ≡ find db.rows m ticket_record_key
  unfolding consume_rate
  consume_rate-ticket name policy ms db m =
      let message = rate_message host policy in
      let charged = rate (String.◌++◌ "rate-v1:" name) ms message db in
      rw (
        call_rate (String.◌++◌ "rate-v1:" name) message ms db,
        granted-db (caught charged),
        caught-db charged,
        ticket-rate (String.◌++◌ "rate-v1:" name) ms message db m,
      )

  then_rate-ticket :
      (name : String) (policy : RatePolicy) (ms : ℕ) (p : Bool × Db) (m : String)
      → find (then_rate host name policy ms p).1.rows m ticket_record_key
        ≡ find p.1.rows m ticket_record_key
  then_rate-ticket name policy ms (false, db) m = refl
  then_rate-ticket name policy ms (true, db) m = consume_rate-ticket name policy ms db m

  redeem_rate_allowed-ticket :
      (request : AppRequest) (secret : String) (clock : ℕ → ℕ) (db : Db) (m : String)
      → find (redeem_rate_allowed host request secret clock db).1.rows m ticket_record_key
        ≡ find db.rows m ticket_record_key
  unfolding redeem_rate_allowed
  redeem_rate_allowed-ticket request secret clock db m =
      then_rate-ticket _ _ _ (consume_rate host _ redeem_source (clock 0) db) m
      ∙ consume_rate-ticket _ redeem_source (clock 0) db m

  redeem_answer-access_key :
      (key k : String) (o : Outcome Reply × Db)
      → (redeem_answer host key (caught o)).0 ≡ access_key k
      → (k ≡ key) × (((caught o).0.status == 200) ≡ true)
  redeem_answer-access_key key k (ok r, db) h = ground arith
  redeem_answer-access_key key k (threw, db) h = ground arith

  -- What a redemption of the ticket `text` at `ms` milliseconds has found and done, if it hands out
  -- the key.
  abbrev pub Redeemed : Configuration → String → String → ℕ → Db → Db → Type 0
  Redeemed configuration read_key text ms db after =
      (now : ℕ) × (current_epoch_seconds ms ≡ some now)
      × (valid_stored_ticket host.parse_url (find db.rows (ticket_name host text) ticket_record_key)
          ≡ true)
      × Matches (find db.rows (ticket_name host text) ticket_record_key)
          (redeem_message host configuration read_key)
      × (now < expires_of (find db.rows (ticket_name host text) ticket_record_key))
      × (find after.rows (ticket_name host text) ticket_record_key
          ≡ consumed_record (find db.rows (ticket_name host text) ticket_record_key) now)

  redeem_answer-db : (key : String) (p : Reply × Db) → (redeem_answer host key p).1 ≡ p.1
  redeem_answer-db key (r, db) = refl

  redeem_ticket-access_key :
      (configuration : Configuration) (key k text : String) (ms : ℕ) (db : Db)
      → (redeem_ticket host configuration key text ms db).0 ≡ access_key k
      → (k ≡ key)
        × Redeemed configuration key text ms db (redeem_ticket host configuration key text ms db).1
  unfolding redeem_ticket
  redeem_ticket-access_key configuration key k text ms db h =
      let name = ticket_name host text in
      let message = redeem_message host configuration key in
      let done = redeem host.parse_url name ms message db in
      let called = call_redeem name message ms db in
      let (same, ok_status) = redeem_answer-access_key key k done (rw called at h) in
      let accepted = redeem_status host.parse_url name ms message db ok_status in
      let (now, t, valid, matches, lt, marked) =
        redeem_sound host.parse_url name ms message db accepted in
      (
        same,
        (
          now,
          t,
          valid,
          matches,
          lt,
          rw (called, redeem_answer-db key (caught done), caught-db done) marked,
        ),
      )

  redeem_if-access_key :
      (configuration : Configuration) (key k : String) (body : Value) (clock : ℕ → ℕ)
      (p : Bool × Db)
      → (redeem_if host configuration key body clock p).0 ≡ access_key k
      → (k ≡ key)
        × ((text : String) × (redeem_request host body ≡ some text)
            × Redeemed configuration key text
                (clock 2)
                p.1
                (redeem_if host configuration key body clock p).1)
  redeem_if-access_key configuration key k body clock (false, db) h = cc
  redeem_if-access_key configuration key k body clock (true, db) h =
      elim (Option-cases (redeem_request host body)) [
        | inl bad ↦ absurd (ground arith)
        | inr (text, e) ↦
            let (same, done) =
              redeem_ticket-access_key configuration key k text (clock 2) db
                (rw (e, redeem_if) at h) in
            (same, (text, e, rw (e, redeem_if) done))
      ]

-- A redeem request that is answered with an access key is answered with the one that is
-- configured, and has consumed the ticket whose text its body holds: at the third reading of the
-- request's clock that ticket's name held a valid ticket for this panel, its key and one of its
-- applications, which had not expired; after it, that record is marked consumed at that time.
pub handle_redeem-access_key :
    (host : Host) (env : Env) (request : AppRequest) (request_origin : String) (clock : ℕ → ℕ)
    (db : Db) (k : String)
    → (handle_redeem host env request request_origin clock db).0 ≡ access_key k
    → (configuration : Configuration) × (base_configuration host env request_origin
        ≡ some configuration)
      × (k ≡ or_empty env.read_key)
      × ((text : String) × (redeem_request host
              (read_small_json host.decode max_body_bytes request.body)
            ≡ some text)
          × Redeemed host configuration
              (or_empty env.read_key)
              text
              (clock 2)
              db
              (handle_redeem host env request request_origin clock db).1)
unfolding handle_redeem
handle_redeem-access_key host env request request_origin clock db k h =
    elim (Bool-cases (str_eq request.method "POST")) [
      | inr other ↦ absurd (ground arith)
      | inl post ↦ elim (Option-cases (base_configuration host env request_origin)) [
        | inl none_ ↦ absurd (ground arith)
        | inr (configuration, e) ↦
            let charged = redeem_rate_allowed host request configuration.issuer_secret clock db in
            let body = read_small_json host.decode max_body_bytes request.body in
            let (same, (text, given, done)) =
              redeem_if-access_key host configuration (or_empty env.read_key) k body clock charged
                (rw (post, e) at h) in
            let (now, t, valid, matches, lt, marked) = done in
            let kept =
              redeem_rate_allowed-ticket host request configuration.issuer_secret clock db
                (ticket_name host text) in
            rw (post, e)
              (
                configuration,
                refl,
                same,
                (
                  text,
                  given,
                  (now, t, rw kept at valid, rw kept at matches, rw kept at lt, rw kept at marked),
                ),
              )
      ]
    ]

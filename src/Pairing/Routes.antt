-- ===== src/Pairing/Routes.antt =====
-- The issue and redeem endpoints of api/app-pairing-routes.js, and api/app-pairing-tickets.js
-- between them and the ticket store.
pub mod Safety
pub mod Issued
use autoform_panel.Pairing.Configuration.{
  secret_equal, base_configuration, Env, Configuration, Host,
}
use Prim.Native.String
use autoform_panel.Pairing.Namespace.{fetch}
use autoform_panel.Pairing.Http.{read_small_json, Incoming}
use autoform_panel.Pairing.Crypto.{
  ticket_ttl_seconds, valid_access_key, bytes_to_base64_url, allowed_application_ids,
  valid_issuer_secret,
}
use autoform_panel.Js.Text.{is_sha256, utf16_length, slice_units}
use autoform_panel.Js.Value.{
  from_list, string_of, arr, get, contains, str, nat, is_nat, undefined, object, Value,
}
use autoform_panel.Pairing.Messages.{is_ticket, exact_object, canonical_https_origin, Url}
use autoform_panel.Pairing.Store.{Reply}
use autoform_panel.Pairing.Constants.{
  redeem_source, redeem_global, issue_client, redeem_endpoint, protocol, redeem_path,
  max_body_bytes, internal_origin, issue_path, issue_global, RatePolicy,
}
use autoform_panel.Pairing.Storage.{Db}
use autoform_panel.Prelude.{
  ◌+◌, ◌/◌, map, ℕ, String, Bool, true, false, not, ◌&&◌, ◌||◌, Option, none, some, List, [], ◌∷◌,
  ◌++◌, str_eq, ltb, ◌==◌, if◌then◌else◌,
}

-- A request of the app or of the issuing server. `url` is none where `new URL` throws.
pub record AppRequest : Type 0 where
  pub method : String
  pub url : Option Url
  pub authorization : Option String
  pub connecting_ip : Option String
  pub body : Incoming

-- What a request answers.
pub data Response : Type 0 where
  failure : ℕ → Response
  ticket : (origin application_id ticket : String) → (expires : ℕ) → Response
  access_key : String → Response

abbrev pub or_empty : Option String → String
or_empty none = ""
or_empty (some s) = s

module _ (host : Host) where
  -- callTicketStore; the body goes through JSON unchanged.
  unfoldable pub call_ticket_store : String → String → Value → ℕ → Db → Reply × Db
  call_ticket_store name path body ms db =
      fetch host.parse_url name ms
        (record { method = "POST"; origin = some internal_origin; pathname = path; body = body }) db

  abbrev pub rate_message : RatePolicy → Value
  rate_message policy = object (
      ("version", nat 1)
      ∷ ("limit", nat policy.limit)
      ∷ ("windowSeconds", nat policy.window_seconds)
      ∷ [])

  abbrev granted : Reply × Db → Bool × Db
  granted (r, db) = (r.status == 200, db)

  unfoldable pub consume_rate : String → RatePolicy → ℕ → Db → Bool × Db
  consume_rate name policy ms db =
      granted
        (call_ticket_store (String.◌++◌ "rate-v1:" name) "/v1/rate" (rate_message policy) ms db)

  -- The second limit is charged only if the first one admits.
  abbrev then_rate : String → RatePolicy → ℕ → Bool × Db → Bool × Db
  then_rate name policy ms (false, db) = (false, db)
  then_rate name policy ms (true, db) = consume_rate name policy ms db

  unfoldable pub issue_rate_allowed : String → (ℕ → ℕ) → Db → Bool × Db
  issue_rate_allowed digest clock db =
      then_rate "issue-global" issue_global (clock 1)
        (consume_rate (String.◌++◌ "issue-client:" digest) issue_client (clock 0) db)

  -- `(header || "unavailable").slice(0, 128)`, over UTF-16 units.
  abbrev source_of : Option String → String
  source_of none = "unavailable"
  source_of (some ip) = if str_eq ip "" then "unavailable" else slice_units 128 ip

  unfoldable pub redeem_rate_allowed : AppRequest → String → (ℕ → ℕ) → Db → Bool × Db
  redeem_rate_allowed request secret clock db =
      let source = host.hmac_sha256_hex secret (
        String.◌++◌ "app-pair-redeem-source-v1"
          (String.◌++◌ "\0" (source_of request.connecting_ip))) in
      then_rate "redeem-global" redeem_global (clock 1)
        (consume_rate (String.◌++◌ "redeem-source:" source) redeem_source (clock 0) db)

  abbrev known_application : Configuration → Value → Value → Option (String × String)
  known_application configuration (str application) (str digest) =
      if contains configuration.application_ids application && is_sha256 digest
      then some (application, digest)
      else none
  known_application configuration _ _ = none

  -- The body of an issue request, after its tests: the application and the client's digest.
  unfoldable pub issue_request : Configuration → Value → Option (String × String)
  issue_request configuration body =
      if not (exact_object body ("version" ∷ "applicationId" ∷ "clientDigest" ∷ []))
        || not (is_nat (get body "version") 1)
      then none
      else known_application configuration (get body "applicationId") (get body "clientDigest")

  -- What `handleIssue` sends to the ticket store.
  abbrev pub issue_message : Configuration → String → String → String → ℕ → Value
  issue_message configuration read_key application digest now = object (
      ("version", nat 1)
      ∷ ("protocol", str protocol)
      ∷ ("panelOrigin", str configuration.origin)
      ∷ ("endpoint", str redeem_endpoint)
      ∷ ("applicationId", str application)
      ∷ ("clientDigest", str digest)
      ∷ ("accessKeyHash", str (host.sha256_hex read_key))
      ∷ ("issuedAt", nat now)
      ∷ ("expires", nat (now + configuration.ttl))
      ∷ [])

  abbrev pub redeem_message : Configuration → String → Value
  redeem_message configuration read_key = object (
      ("version", nat 1)
      ∷ ("protocol", str protocol)
      ∷ ("panelOrigin", str configuration.origin)
      ∷ ("endpoint", str redeem_endpoint)
      ∷ (
        "allowedApplicationIds",
        arr (from_list (map (λ (s : String). str s) configuration.application_ids)),
      )
      ∷ ("accessKeyHash", str (host.sha256_hex read_key))
      ∷ [])

  abbrev pub ticket_name : String → String
  ticket_name text = String.◌++◌ "ticket-v1:" (host.sha256_hex text)

  abbrev issue_answer : Response → Reply × Db → Response × Db
  issue_answer response (r, db) = (if r.status == 200 then response else failure 503, db)

  -- `random` are the 32 bytes of createTicket; the clock says what each `Date.now()` returns.
  unfoldable pub issue_ticket :
      Configuration → String → String → String → List ℕ → (ℕ → ℕ) → Db → Response × Db
  issue_ticket configuration read_key application digest random clock db =
      let now = clock 2 / 1000 in
      let text = bytes_to_base64_url random in
      issue_answer (ticket configuration.origin application text (now + configuration.ttl)) (
        call_ticket_store (ticket_name text) "/v1/issue"
          (issue_message configuration read_key application digest now) (clock 3) db)

  abbrev issue_if :
      Configuration → String → String → String → List ℕ → (ℕ → ℕ) → Bool × Db → Response × Db
  issue_if configuration read_key application digest random clock (false, db) = (failure 429, db)
  issue_if configuration read_key application digest random clock (true, db) =
      issue_ticket configuration read_key application digest random clock db

  -- handleIssue, once the method and the configuration are checked.
  unfoldable pub issue_authorized :
      Env → Configuration → AppRequest → List ℕ → (ℕ → ℕ) → Db → Response × Db
  issue_authorized env configuration request random clock db =
      if not (
        secret_equal host (or_empty request.authorization)
          (String.◌++◌ "Bearer " configuration.issuer_secret))
      then (failure 401, db)
      else elim (issue_request configuration
          (read_small_json host.decode max_body_bytes request.body)) [
            | none ↦ (failure 400, db)
            | some (application, digest) ↦
                issue_if configuration (or_empty env.read_key) application digest random clock
                  (issue_rate_allowed digest clock db)
          ]

  abbrev redeem_answer : String → Reply × Db → Response × Db
  redeem_answer read_key (r, db) =
      (if r.status == 200 then access_key read_key else failure 400, db)

  -- `exactObject(body, ["version", "ticket"]) && body.version === 1 && TICKET_RE.test(body.ticket)`
  unfoldable pub redeem_request : Value → Option String
  redeem_request body =
      if not (exact_object body ("version" ∷ "ticket" ∷ []))
        || not (is_nat (get body "version") 1)
        || not (is_ticket (get body "ticket"))
      then none
      else string_of (get body "ticket")

  unfoldable pub redeem_ticket : Configuration → String → String → ℕ → Db → Response × Db
  redeem_ticket configuration read_key text ms db = redeem_answer read_key (
      call_ticket_store (ticket_name text) "/v1/redeem" (redeem_message configuration read_key) ms
        db)

  abbrev redeem_if : Configuration → String → Value → (ℕ → ℕ) → Bool × Db → Response × Db
  redeem_if configuration read_key body clock (false, db) = (failure 429, db)
  redeem_if configuration read_key body clock (true, db) = elim (redeem_request body) [
    | none ↦ (failure 400, db)
    | some text ↦ redeem_ticket configuration read_key text (clock 2) db
  ]

  unfoldable pub handle_issue : Env → AppRequest → String → List ℕ → (ℕ → ℕ) → Db → Response × Db
  handle_issue env request request_origin random clock db =
      if not (str_eq request.method "POST")
      then (failure 404, db)
      else elim (base_configuration host env request_origin) [
        | none ↦ (failure 503, db)
        | some configuration ↦ issue_authorized env configuration request random clock db
      ]

  unfoldable pub handle_redeem : Env → AppRequest → String → (ℕ → ℕ) → Db → Response × Db
  handle_redeem env request request_origin clock db =
      if not (str_eq request.method "POST")
      then (failure 404, db)
      else elim (base_configuration host env request_origin) [
        | none ↦ (failure 503, db)
        | some configuration ↦
            redeem_if configuration (or_empty env.read_key)
              (read_small_json host.decode max_body_bytes request.body) clock
              (redeem_rate_allowed request configuration.issuer_secret clock db)
      ]

  -- handleAppPairingRequest
  unfoldable pub handle_app_pairing_request :
      Env → AppRequest → List ℕ → (ℕ → ℕ) → Db → Response × Db
  handle_app_pairing_request env request random clock db = elim request.url [
    | none ↦ (failure 503, db)
    | some url ↦
        if not (str_eq url.query "") || not (str_eq url.hash "")
        then (failure 404, db)
        else if str_eq url.pathname issue_path
        then handle_issue env request url.origin random clock db
        else if str_eq url.pathname redeem_path
        then handle_redeem env request url.origin clock db
        else (failure 404, db)
  ]

-- ===== src/Pairing/RouteTests.antt =====
-- Concrete runs of the two endpoints, over a host whose digest is constant.
use autoform_panel.Pairing.Constants.{max_body_bytes}
use autoform_panel.Js.Text.{trim, slice_units, is_sha256}
use autoform_panel.Pairing.Crypto.{
  bytes_to_base64_url, ticket_ttl_seconds, split_commas, allowed_application_ids,
  valid_issuer_secret, valid_access_key,
}
use autoform_panel.Pairing.Routes.Safety.{handle_redeem-access_key, Redeemed}
use autoform_panel.Pairing.Tests.{empty, ticket_store, parse_panel, panel, digest_a}
use autoform_panel.Pairing.Http.Chunks.{read_small_json_lem}
use autoform_panel.Pairing.Storage.{Db}
use autoform_panel.Pairing.Messages.{
  is_app_id, is_ticket, valid_internal_issue, canonical_https_origin,
}
use autoform_panel.Js.Value.{str, nat, object, Value}
use autoform_panel.Pairing.Routes.Issued.{issue_message-valid, IsFaithful}
use autoform_panel.Pairing.Http.{
  has_bom, copy_chunks, read_chunks, is_numeral, length_allowed, upto_semicolon, json_content_type,
  zeros, read_small_json, Incoming,
}
use autoform_panel.Pairing.Routes.{
  or_empty, redeem_rate_allowed, issue_rate_allowed, consume_rate, call_ticket_store, redeem_ticket,
  issue_ticket, issue_authorized, redeem_request, issue_request, issue_message,
  handle_app_pairing_request, failure, handle_issue, ticket, handle_redeem, access_key, Response,
  AppRequest,
}
use autoform_panel.Pairing.Configuration.{
  secret_equal, configured, base_configuration, Host, Env, Configuration,
}
use autoform_panel.Prelude.{
  inl, inr, str_eq, Bool-cases, ℕ, String, ◌≡◌, refl, true, false, Option, none, some, List, [],
  ◌∷◌, arith,
}

endpoints : Unit {0}
unfolding ticket_store handle_issue handle_redeem handle_app_pairing_request base_configuration
    configured secret_equal issue_request redeem_request issue_authorized issue_ticket redeem_ticket
    call_ticket_store consume_rate issue_rate_allowed redeem_rate_allowed read_small_json
    json_content_type upto_semicolon length_allowed is_numeral read_chunks copy_chunks has_bom
    valid_access_key valid_issuer_secret allowed_application_ids split_commas ticket_ttl_seconds
    bytes_to_base64_url is_ticket is_sha256 slice_units canonical_https_origin trim is_app_id
endpoints = tt

abbrev issue_body : Value
issue_body = object (
    ("version", nat 1)
    ∷ ("applicationId", str "com.example.app")
    ∷ ("clientDigest", str digest_a)
    ∷ [])

abbrev ticket_text : String
ticket_text = "AAAAAAAAAAAAAAAAAAAAAAAAAAAAAAAAAAAAAAAAAAA"

abbrev redeem_body : Value
redeem_body = object (("version", nat 1) ∷ ("ticket", str ticket_text) ∷ [])

-- One byte stands for the issue body, two for the redeem body.
abbrev decode : List ℕ → Option Value
decode (b ∷ []) = some issue_body
decode _ = some redeem_body

abbrev host : Host
host = record {
  parse_url = parse_panel;
  sha256_hex = λ s. digest_a;
  hmac_sha256_hex = λ s v. digest_a;
  decode = decode;
}

abbrev secret : String
secret = "0123456789abcdef0123456789abcdef"

abbrev env : Env
env = record {
  public_url = some panel;
  application_ids = some "com.example.app, com.example.other";
  issuer_key = some secret;
  read_key = some "read-key";
  ttl_seconds = none;
  tickets = true;
}

abbrev incoming : List (List ℕ) → Incoming
incoming chunks = record {
  content_type = some "Application/JSON; charset=utf-8";
  content_length = none;
  chunks = some chunks;
  broken = false;
}

abbrev ask : List (List ℕ) → AppRequest
ask chunks = record {
  method = "POST";
  url = none;
  authorization = some "Bearer 0123456789abcdef0123456789abcdef";
  connecting_ip = none;
  body = incoming chunks;
}

abbrev clock : ℕ → ℕ
clock n = 1000000

-- 32 random bytes, all zero.
abbrev random : List ℕ
random = zeros 32

abbrev after_issue : Response × Db
after_issue = handle_issue host env (ask ((1 ∷ []) ∷ [])) panel random clock empty

issue_runs : after_issue.0 ≡ ticket panel "com.example.app" ticket_text 1300
unfolding endpoints
issue_runs = refl

abbrev after_redeem : Response × Db
after_redeem = handle_redeem host env (ask ((1 ∷ 2 ∷ []) ∷ [])) panel clock after_issue.1

redeem_runs : after_redeem.0 ≡ access_key "read-key"
unfolding endpoints
redeem_runs = refl

redeem_again_fails :
    (handle_redeem host env (ask ((1 ∷ 2 ∷ []) ∷ [])) panel clock after_redeem.1).0 ≡ failure 400
unfolding endpoints
redeem_again_fails = refl

handle_redeem-access_key_example :
    (c : Configuration) × (base_configuration host env panel ≡ some c)
    × (or_empty env.read_key ≡ "read-key")
    × ((text : String) × (redeem_request host
            (read_small_json host.decode max_body_bytes (ask ((1 ∷ 2 ∷ []) ∷ [])).body)
          ≡ some text)
        × Redeemed host c "read-key" text (clock 2) after_issue.1 after_redeem.1)
handle_redeem-access_key_example =
    handle_redeem-access_key host env (ask ((1 ∷ 2 ∷ []) ∷ [])) panel clock after_issue.1 "read-key"
      redeem_runs

panel_of : (s o : String) → canonical_https_origin parse_panel (str s) ≡ some o → o ≡ panel
unfolding canonical_https_origin
panel_of s o h = elim (Bool-cases (str_eq s panel)) [
  | inl e ↦ ground arith
  | inr e ↦ absurd (ground arith)
]

panel_canonical : canonical_https_origin parse_panel (str panel) ≡ some panel
unfolding endpoints
panel_canonical = refl

parse_panel-origin :
    (s o : String)
    → canonical_https_origin parse_panel (str s) ≡ some o
    → canonical_https_origin parse_panel (str o) ≡ some o
parse_panel-origin s o h = rw (panel_of s o h) panel_canonical

host-IsFaithful : IsFaithful host
unfolding endpoints
host-IsFaithful = record { digest = λ s. refl; origin = parse_panel-origin }

abbrev configuration : Configuration
configuration = record {
  origin = panel;
  application_ids = "com.example.app" ∷ "com.example.other" ∷ [];
  issuer_secret = secret;
  ttl = 300;
}

issue_message-valid_example :
    valid_internal_issue parse_panel
      (issue_message host configuration "read-key" "com.example.app" digest_a 1000)
    ≡ true
unfolding endpoints
issue_message-valid_example =
    issue_message-valid host env panel configuration issue_body "com.example.app" digest_a
      "read-key" 1000 host-IsFaithful refl refl (omega arith) (omega arith)

read_small_json_lem_example :
    read_small_json decode 4 (incoming ((1 ∷ 2 ∷ []) ∷ (3 ∷ []) ∷ [])) ≡ redeem_body
unfolding endpoints
read_small_json_lem_example =
    read_small_json_lem decode 4 (incoming ((1 ∷ 2 ∷ []) ∷ (3 ∷ []) ∷ []))
      ((1 ∷ 2 ∷ []) ∷ (3 ∷ []) ∷ []) refl

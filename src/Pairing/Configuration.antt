-- ===== src/Pairing/Configuration.antt =====
-- baseConfiguration of api/app-pairing-routes.js: what the endpoints run with.
use Prim.Native.String
use autoform_panel.Pairing.Crypto.{
  ticket_ttl_seconds, valid_access_key, allowed_application_ids, valid_issuer_secret,
}
use autoform_panel.Js.Text.{utf16_length}
use autoform_panel.Js.Value.{str, undefined, Value}
use autoform_panel.Pairing.Messages.{canonical_https_origin, Url}
use autoform_panel.Prelude.{
  ℕ, String, Bool, false, not, ◌&&◌, ◌||◌, Option, none, some, List, str_eq, ltb, ◌==◌,
  if◌then◌else◌,
}

-- The environment bindings that the pairing reads; `tickets` says that the namespace is bound.
pub record Env : Type 0 where
  pub public_url : Option String
  pub application_ids : Option String
  pub issuer_key : Option String
  pub read_key : Option String
  pub ttl_seconds : Option String
  pub tickets : Bool

pub record Configuration : Type 0 where
  pub origin : String
  pub application_ids : List String
  pub issuer_secret : String
  pub ttl : ℕ

-- What the host computes: URL parsing, SHA-256 in hexadecimal and HMAC of a text, and the decoding
-- of a JSON body.
pub record Host : Type 0 where
  pub parse_url : String → Option Url
  pub sha256_hex : String → String
  pub hmac_sha256_hex : String → String → String
  pub decode : List ℕ → Option Value

abbrev pub value_of_setting : Option String → Value
value_of_setting none = undefined
value_of_setting (some s) = str s

-- `a === b` of an optional text and a text
abbrev pub same_setting : Option String → String → Bool
same_setting none s = false
same_setting (some t) s = str_eq t s

module _ (host : Host) where
  -- constantTimeSecretEqual, which compares the digests and the byte lengths of two bounded texts.
  unfoldable pub secret_equal : String → String → Bool
  secret_equal actual expected =
      if ltb 8192 (utf16_length actual) || ltb 8192 (utf16_length expected)
      then false
      else String.len actual == String.len expected
        && str_eq (host.sha256_hex actual) (host.sha256_hex expected)

  -- The second half of baseConfiguration: the tests, once the settings are read.
  unfoldable pub configured :
      Option String
      → Option (List String)
      → Option String
      → Option ℕ
      → Env
      → String
      → Option Configuration
  configured (some origin) (some ids) (some secret) (some ttl) env request_origin =
      if not (str_eq request_origin origin)
        || not (valid_issuer_secret (some secret))
        || not (valid_access_key env.read_key)
        || same_setting env.read_key secret
        || not env.tickets
      then none
      else some
          (record { origin = origin; application_ids = ids; issuer_secret = secret; ttl = ttl })
  configured _ _ _ _ env request_origin = none

  -- baseConfiguration
  unfoldable pub base_configuration : Env → String → Option Configuration
  base_configuration env request_origin =
      configured (canonical_https_origin host.parse_url (value_of_setting env.public_url))
        (allowed_application_ids env.application_ids) env.issuer_key
        (ticket_ttl_seconds env.ttl_seconds) env request_origin

-- ===== src/Pairing/Routes/Issued.antt =====
-- The messages of the endpoints are ones that the ticket store accepts.
use autoform_panel.Pairing.Crypto.Settings.{ticket_ttl_seconds_bounds}
use autoform_panel.Pairing.Crypto.{
  split_commas, distinct, valid_access_key, ticket_ttl_seconds, valid_issuer_secret,
  allowed_application_ids,
}
use autoform_panel.Js.Value.{nat, safe_nat, get, max_safe_integer, Value, contains, str}
use autoform_panel.Js.Text.{trim, utf16_length, is_sha256}
use autoform_panel.Pairing.Messages.{
  valid_lifetime, exact_object, is_digest, valid_ticket_fields, is_app_id, valid_internal_issue,
  is_application_id, canonical_https_origin, is_canonical,
}
use autoform_panel.Pairing.Routes.{known_application, issue_message, issue_request}
use autoform_panel.Pairing.Configuration.{
  base_configuration, same_setting, value_of_setting, Configuration, Env, configured, Host,
}
use autoform_panel.Prelude.{
  ◌+◌, ◌≤◌, ◌<◌, Bool, not, ◌||◌, [], ◌∷◌, str_eq, ltb, length, any, length-map, ℕ, String, ◌≡◌,
  true, false, Option, none, some, List, arith, eq_iff,
}

-- What is assumed of the host: the digest is lowercase hexadecimal, and the origin of an address
-- is an address whose origin it is.
pub record IsFaithful (host : Host) : Type 0 where
  pub digest : (s : String) → is_sha256 (host.sha256_hex s) ≡ true
  pub origin :
      (s o : String)
      → canonical_https_origin host.parse_url (str s) ≡ some o
      → canonical_https_origin host.parse_url (str o) ≡ some o

canonical_setting :
    (host : Host) (faithful : IsFaithful host) (setting : Option String) (o : String)
    → canonical_https_origin host.parse_url (value_of_setting setting) ≡ some o
    → is_canonical host.parse_url (str o) ≡ true
unfolding is_canonical
canonical_setting host faithful none o h = absurd (unfold canonical_https_origin in cc)
canonical_setting host faithful (some s) o h =
    rw (faithful.origin s o h, is_canonical) (ground (arith, eq_iff o o))

-- What base_configuration guarantees of the configuration that it returns.
pub record IsConfigured (host : Host) (env : Env) (request_origin : String) (c : Configuration)
    : Type 0 where
  pub origin :
      canonical_https_origin host.parse_url (value_of_setting env.public_url) ≡ some c.origin
  pub same_origin : request_origin ≡ c.origin
  pub ids : allowed_application_ids env.application_ids ≡ some c.application_ids
  pub ttl : ticket_ttl_seconds env.ttl_seconds ≡ some c.ttl
  pub secret : env.issuer_key ≡ some c.issuer_secret
  pub strong : valid_issuer_secret (some c.issuer_secret) ≡ true
  pub key : valid_access_key env.read_key ≡ true
  pub separate : same_setting env.read_key c.issuer_secret ≡ false

configured-IsConfigured :
    (host : Host) (env : Env) (request_origin : String) (c : Configuration) (o : Option String)
    (ids : Option (List String)) (secret : Option String) (ttl : Option ℕ)
    → configured host o ids secret ttl env request_origin ≡ some c
    → (o ≡ some c.origin)
      × (request_origin ≡ c.origin)
      × (ids ≡ some c.application_ids)
      × (ttl ≡ some c.ttl)
      × (secret ≡ some c.issuer_secret)
      × (valid_issuer_secret (some c.issuer_secret) ≡ true)
      × (valid_access_key env.read_key ≡ true)
      × (same_setting env.read_key c.issuer_secret ≡ false)
unfolding configured
configured-IsConfigured host env request_origin c (some o) (some ids) (some secret) (some ttl) h =
    ground (arith, eq_iff request_origin o)
configured-IsConfigured host env request_origin c _ _ _ _ h = cc

base_configuration-IsConfigured :
    (host : Host) (env : Env) (request_origin : String) (c : Configuration)
    → base_configuration host env request_origin ≡ some c
    → IsConfigured host env request_origin c
unfolding base_configuration
base_configuration-IsConfigured host env request_origin c h =
    let (o, same, ids, ttl, secret, strong, key, separate) =
      configured-IsConfigured host env request_origin c _ _ _ _ h in
    record {
      origin = o;
      same_origin = same;
      ids = ids;
      ttl = ttl;
      secret = secret;
      strong = strong;
      key = key;
      separate = separate;
    }

-- The test that allowedApplicationIds makes of each value.
abbrev bad_id : String → Bool
bad_id v = str_eq v "" || ltb 255 (utf16_length v) || not (is_app_id v)

id_of_contains :
    (ids : List String) (id : String)
    → any bad_id ids ≡ false
    → contains ids id ≡ true
    → is_application_id (str id) ≡ true
unfolding is_application_id
id_of_contains [] id h k = cc
id_of_contains (j ∷ ids) id h k = ground (arith, id_of_contains ids id, eq_iff j id)

ids_of_setting :
    (setting : Option String) (ids : List String)
    → allowed_application_ids setting ≡ some ids
    → (any bad_id ids ≡ false) × (distinct ids ≡ true) × (1 ≤ length ids) × (length ids ≤ 16)
unfolding allowed_application_ids
ids_of_setting none ids h = cc
ids_of_setting (some setting) ids h = ground (arith, length-map (split_commas setting) trim)

known-application :
    (host : Host) (c : Configuration) (id client : Value) (application digest : String)
    → known_application host c id client ≡ some (application, digest)
    → (contains c.application_ids application ≡ true) × (is_sha256 digest ≡ true)
known-application host c (str a) (str d) application digest h = ground arith
known-application host c _ _ application digest h = cc

request-application :
    (host : Host) (c : Configuration) (body : Value) (application digest : String)
    → issue_request host c body ≡ some (application, digest)
    → (contains c.application_ids application ≡ true) × (is_sha256 digest ≡ true)
unfolding issue_request
request-application host c body application digest h =
    known-application host c (get body "applicationId") (get body "clientDigest") application digest
      (ground arith)

valid_lifetime-issue :
    (now ttl : ℕ)
    → 0 < now
    → 60 ≤ ttl
    → ttl ≤ 600
    → now + 600 ≤ max_safe_integer
    → valid_lifetime (safe_nat (nat now)) (safe_nat (nat (now + ttl))) ≡ true
unfolding valid_lifetime
valid_lifetime-issue now ttl p q r s = ground arith

-- The body that the route makes of an accepted issue request is one that the ticket store takes:
-- for a faithful host, an accepted configuration and request, and a time whose expiry is a safe
-- integer.
pub issue_message-valid :
    (host : Host) (env : Env) (request_origin : String) (c : Configuration) (body : Value)
    (application digest read_key : String) (now : ℕ)
    → IsFaithful host
    → base_configuration host env request_origin ≡ some c
    → issue_request host c body ≡ some (application, digest)
    → 0 < now
    → now + 600 ≤ max_safe_integer
    → valid_internal_issue host.parse_url (issue_message host c read_key application digest now)
      ≡ true
unfolding valid_internal_issue valid_ticket_fields is_digest exact_object
issue_message-valid host env request_origin c body application digest read_key now faithful h r pos_
      small =
    let k = base_configuration-IsConfigured host env request_origin c h in
    let (known, digest_ok) = request-application host c body application digest r in
    let (fine, different, some_, few) =
      ids_of_setting env.application_ids c.application_ids k.ids in
    let (longer, shorter) = ticket_ttl_seconds_bounds env.ttl_seconds c.ttl k.ttl in
    rw
      (
        canonical_setting host faithful env.public_url c.origin k.origin,
        id_of_contains c.application_ids application fine known,
        digest_ok,
        faithful.digest read_key,
      )
      (valid_lifetime-issue now c.ttl pos_ longer shorter small)

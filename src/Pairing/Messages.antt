-- ===== src/Pairing/Messages.antt =====
-- The messages and records that the ticket store accepts: the validators of
-- api/app-pairing-store.js, `exactObject` of api/app-pairing-http.js, and the patterns and secrets
-- of api/app-pairing-crypto.js that they use.
pub mod Keys
use Prim.Native.String
use Prim.Native.Nat.{Ordering}
use autoform_panel.Prelude.{
  ℕ, ◌-◌, String, Bool, true, false, not, ◌&&◌, ◌||◌, Option, none, some, List, [], ◌∷◌, ltb, leb,
  ◌==◌, str_eq, all, any, length, if◌then◌else◌,
}
use autoform_panel.Js.Value.{
  Value, null, str, arr, obj, items, field_names, get, is_str, is_nat, safe_nat, strict_eq,
}
use autoform_panel.Js.Text.{codes, utf16_length, is_letter, is_word, is_sha256, trim}
use autoform_panel.Pairing.Constants.{protocol, redeem_endpoint, max_ttl_seconds}

-- `keys.sort()`. A total order on the texts decides; which one, the comparison of two sorted lists
-- does not show.
before : String → String → Bool
before s t = elim (String.compare s t) [ Ordering.gt ↦ false | _ ↦ true ]

unfoldable pub insert_sorted : String → List String → List String
unfolding before
insert_sorted k [] = k ∷ []
insert_sorted k (j ∷ js) = if before j k then j ∷ insert_sorted k js else k ∷ j ∷ js

unfoldable pub sort_onto : List String → List String → List String
unfolding insert_sorted
sort_onto sorted [] = sorted
sort_onto sorted (k ∷ ks) = sort_onto (insert_sorted k sorted) ks

abbrev pub sort : List String → List String
sort keys = sort_onto [] keys

-- `actual.length === expected.length && actual.every((key, index) => key === expected[index])`
unfoldable pub same_keys : List String → List String → Bool
same_keys [] [] = true
same_keys (j ∷ js) (k ∷ ks) = str_eq j k && same_keys js ks
same_keys _ _ = false

unfoldable pub exact_object : Value → List String → Bool
unfolding same_keys sort_onto
exact_object (obj fs) keys = same_keys (sort (field_names fs)) (sort keys)
exact_object _ keys = false

-- APP_ID_RE, /^[A-Za-z][A-Za-z0-9_]*(?:\.[A-Za-z][A-Za-z0-9_]*)+$/u: the state says whether a
-- letter must come next, and whether a dot has been seen.
unfoldable pub app_id_from : Bool → Bool → List ℕ → Bool
app_id_from start dotted [] = not start && dotted
app_id_from true dotted (c ∷ cs) = is_letter c && app_id_from false dotted cs
app_id_from false dotted (c ∷ cs) =
    if c == 46 then app_id_from true true cs else is_word c && app_id_from false dotted cs

unfoldable pub is_app_id : String → Bool
unfolding app_id_from
is_app_id s = app_id_from true false (codes s)

-- `value.length <= 255 && APP_ID_RE.test(value)`
unfoldable pub is_application_id : Value → Bool
unfolding is_app_id
is_application_id (str s) = leb (utf16_length s) 255 && is_app_id s
is_application_id _ = false

-- CLIENT_DIGEST_RE and HEX_SHA256_RE
unfoldable pub is_digest : Value → Bool
unfolding is_sha256
is_digest (str s) = is_sha256 s
is_digest _ = false

-- TICKET_RE, /^[A-Za-z0-9_-]{32,512}$/u
unfoldable pub is_ticket : Value → Bool
is_ticket (str s) =
    let cs = codes s in
    all (λ c. is_word c || c == 45) cs && leb 32 (length cs) && leb (length cs) 512
is_ticket _ = false

-- `Number.isSafeInteger(issuedAt) && issuedAt > 0`, the same of `expires`, and their distance
unfoldable pub valid_lifetime : Option ℕ → Option ℕ → Bool
valid_lifetime (some issued) (some expires) =
    ltb 0 issued && ltb issued expires && leb (expires - issued) max_ttl_seconds
valid_lifetime _ _ = false

abbrev pub issue_keys : List String
issue_keys =
    "version" ∷ "protocol" ∷ "panelOrigin" ∷ "endpoint" ∷ "applicationId" ∷ "clientDigest"
    ∷ "accessKeyHash" ∷ "issuedAt" ∷ "expires" ∷ []

abbrev pub stored_keys : List String
stored_keys =
    "version" ∷ "protocol" ∷ "panelOrigin" ∷ "endpoint" ∷ "applicationId" ∷ "clientDigest"
    ∷ "accessKeyHash" ∷ "issuedAt" ∷ "expires" ∷ "status" ∷ []

-- `new Set(ids).size === ids.length` of texts
abbrev all_distinct : List Value → Bool
all_distinct [] = true
all_distinct (v ∷ vs) = not (any (strict_eq v) vs) && all_distinct vs

unfoldable pub valid_allowed_ids : Value → Bool
unfolding is_application_id
valid_allowed_ids (arr ids) =
    let n = length (items ids) in
    leb 1 n && leb n 16 && all is_application_id (items ids) && all_distinct (items ids)
valid_allowed_ids _ = false

-- The parts of a `URL` that the panel reads.
pub record Url : Type 0 where
  pub scheme : String
  pub username : String
  pub password : String
  pub origin : String
  pub pathname : String
  pub query : String
  pub hash : String

abbrev pub origin_of : Option Url → Option String
origin_of none = none
origin_of (some u) =
    if not (str_eq u.scheme "https:")
      || not (str_eq u.username "")
      || not (str_eq u.password "")
      || (not (str_eq u.pathname "") && not (str_eq u.pathname "/"))
      || not (str_eq u.query "")
      || not (str_eq u.hash "")
    then none
    else some u.origin

-- `new URL(text)` of the host; `none` stands for its TypeError.
module _ (parse_url : String → Option Url) where
  -- canonicalHttpsOrigin
  unfoldable pub canonical_https_origin : Value → Option String
  unfolding trim
  canonical_https_origin (str s) =
      if ltb 2048 (utf16_length s) || not (str_eq s (trim s)) then none else origin_of (parse_url s)
  canonical_https_origin _ = none

  -- `value === canonicalHttpsOrigin(value)`; both sides may be null
  unfoldable pub is_canonical : Value → Bool
  unfolding canonical_https_origin
  is_canonical null = true
  is_canonical (str s) = elim (canonical_https_origin (str s)) [
    | none ↦ false
    | some o ↦ str_eq s o
  ]
  is_canonical _ = false

  -- The tests that a stored ticket and an issue message share.
  unfoldable pub valid_ticket_fields : Value → Bool
  valid_ticket_fields v =
      is_nat (get v "version") 1
      && is_str (get v "protocol") protocol
      && is_canonical (get v "panelOrigin")
      && is_str (get v "endpoint") redeem_endpoint
      && is_application_id (get v "applicationId")
      && is_digest (get v "clientDigest")
      && is_digest (get v "accessKeyHash")
      && valid_lifetime (safe_nat (get v "issuedAt")) (safe_nat (get v "expires"))

  -- validInternalIssue
  unfoldable pub valid_internal_issue : Value → Bool
  valid_internal_issue body = exact_object body issue_keys && valid_ticket_fields body

  -- validStoredTicket
  unfoldable pub valid_stored_ticket : Value → Bool
  valid_stored_ticket record_ =
      exact_object record_ stored_keys
      && valid_ticket_fields record_
      && is_str (get record_ "status") "issued"

  -- validInternalRedeem
  unfoldable pub valid_internal_redeem : Value → Bool
  valid_internal_redeem body =
      exact_object body (
        "version" ∷ "protocol" ∷ "panelOrigin" ∷ "endpoint" ∷ "allowedApplicationIds"
        ∷ "accessKeyHash" ∷ [])
      && is_nat (get body "version") 1
      && is_str (get body "protocol") protocol
      && is_canonical (get body "panelOrigin")
      && is_str (get body "endpoint") redeem_endpoint
      && valid_allowed_ids (get body "allowedApplicationIds")
      && is_digest (get body "accessKeyHash")

abbrev within : ℕ → ℕ → Option ℕ → Bool
within lo hi none = false
within lo hi (some n) = leb lo n && leb n hi

-- validInternalRate
unfoldable pub valid_internal_rate : Value → Bool
valid_internal_rate body =
    exact_object body ("version" ∷ "limit" ∷ "windowSeconds" ∷ [])
    && is_nat (get body "version") 1
    && within 1 10000 (safe_nat (get body "limit"))
    && within 10 3600 (safe_nat (get body "windowSeconds"))

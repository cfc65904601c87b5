-- ===== src/Pairing/Constants.antt =====
-- api/app-pairing-constants.js
use autoform_panel.Prelude.{ℕ, String}

abbrev pub protocol : String
protocol = "app-pair/v1"

abbrev pub issue_path : String
issue_path = "/api/app-pair/v1/issue"

abbrev pub redeem_path : String
redeem_path = "/api/app-pair/v1/redeem"

abbrev pub redeem_endpoint : String
redeem_endpoint = redeem_path

abbrev pub internal_origin : String
internal_origin = "https://app-pair.internal"

abbrev pub ticket_record_key : String
ticket_record_key = "ticket-v1"

abbrev pub rate_record_key : String
rate_record_key = "rate-v1"

abbrev pub max_ttl_seconds : ℕ
max_ttl_seconds = 600

abbrev pub max_body_bytes : ℕ
max_body_bytes = 4096

abbrev pub max_internal_body_bytes : ℕ
max_internal_body_bytes = 8192

pub record RatePolicy : Type 0 where
  pub limit : ℕ
  pub window_seconds : ℕ

-- RATE_LIMITS
abbrev pub issue_client : RatePolicy
issue_client = record { limit = 12; window_seconds = 60 }

abbrev pub issue_global : RatePolicy
issue_global = record { limit = 600; window_seconds = 60 }

abbrev pub redeem_source : RatePolicy
redeem_source = record { limit = 120; window_seconds = 60 }

abbrev pub redeem_global : RatePolicy
redeem_global = record { limit = 6000; window_seconds = 60 }

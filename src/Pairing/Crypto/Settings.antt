-- ===== src/Pairing/Crypto/Settings.antt =====
-- What the settings of the pairing guarantee when they are accepted.
use autoform_panel.Pairing.Crypto.{ticket_ttl_seconds}
use autoform_panel.Prelude.{ℕ, ◌≤◌, String, ◌≡◌, Option, none, some, arith}

-- An accepted lifetime is from one to ten minutes.
pub ticket_ttl_seconds_bounds :
    (setting : Option String) (ttl : ℕ)
    → ticket_ttl_seconds setting ≡ some ttl
    → (60 ≤ ttl) × (ttl ≤ 600)
unfolding ticket_ttl_seconds
ticket_ttl_seconds_bounds none ttl h = ground arith
ticket_ttl_seconds_bounds (some raw) ttl h = ground arith

-- ===== src/Pairing/Store.antt =====
-- AppPairingTicketStore of api/app-pairing-store.js: one object for each name, and the dispatch
-- and alarm sweep of stores/pairing-store.mjs that run it.
pub mod Effects
use autoform_panel.Prelude.{
  ℕ, ◌+◌, ◌*◌, ◌/◌, String, Bool, true, false, not, ◌&&◌, Option, none, some, [], ◌∷◌, ltb, leb,
  any, if◌then◌else◌,
}
use autoform_panel.Js.Value.{
  Value, str, arr, obj, nat, items, get, set_field, object, is_nat, safe_nat, strict_eq, truthy,
}
use autoform_panel.Pairing.Constants.{ticket_record_key, rate_record_key}
use autoform_panel.Pairing.Storage.{
  Exec, pure, ◌>>=◌, ◌>>◌, get_value, put_value, delete_all, set_alarm, transaction,
}
use autoform_panel.Pairing.Messages.{
  Url, valid_stored_ticket, valid_internal_issue, valid_internal_redeem, valid_internal_rate,
}

-- What `internalResult` answers: the body's `ok`, and the status.
pub record Reply : Type 0 where
  pub accepted : Bool
  pub status : ℕ

abbrev pub answer : Bool → ℕ → Reply
answer accepted status = record { accepted = accepted; status = status }

-- currentEpochSeconds: `Date.now()` is an integer number of milliseconds.
unfoldable pub current_epoch_seconds : ℕ → Option ℕ
current_epoch_seconds ms = if ltb 0 ms then some (ms / 1000) else none

-- `{ ...body, status: "issued" }`
abbrev pub issued_record : Value → Value
issued_record (obj fs) = obj (set_field "status" (str "issued") fs)
issued_record _ = object (("status", str "issued") ∷ [])

unfoldable pub expires_of : Value → ℕ
expires_of v = elim (safe_nat (get v "expires")) [ none ↦ 0 | some e ↦ e ]

abbrev pub consumed_record : Value → ℕ → Value
consumed_record r now = object (
    ("version", get r "version")
    ∷ ("protocol", get r "protocol")
    ∷ ("panelOrigin", get r "panelOrigin")
    ∷ ("endpoint", get r "endpoint")
    ∷ ("applicationId", get r "applicationId")
    ∷ ("clientDigest", get r "clientDigest")
    ∷ ("accessKeyHash", get r "accessKeyHash")
    ∷ ("issuedAt", get r "issuedAt")
    ∷ ("expires", get r "expires")
    ∷ ("status", str "consumed")
    ∷ ("consumedAt", nat now)
    ∷ [])

-- `list.includes(value)`
abbrev pub includes : Value → Value → Bool
includes (arr vs) v = any (strict_eq v) (items vs)
includes _ v = false

abbrev pub size_of : Value → ℕ
size_of v = elim (safe_nat v) [ none ↦ 0 | some n ↦ n ]

-- The start of the rate window that `now` lies in.
abbrev pub window_start : ℕ → ℕ → ℕ
window_start now seconds = now / seconds * seconds

abbrev pub rate_record : ℕ → ℕ → ℕ → Value
rate_record start seconds count = object (
    ("version", nat 1)
    ∷ ("windowStart", nat start)
    ∷ ("windowSeconds", nat seconds)
    ∷ ("count", nat count)
    ∷ [])

-- The count of the stored window, or zero if another window is stored.
unfoldable pub window_count : Value → ℕ → ℕ → Value
window_count current start seconds =
    if truthy current
      && is_nat (get current "version") 1
      && is_nat (get current "windowStart") start
      && is_nat (get current "windowSeconds") seconds
    then get current "count"
    else nat 0

module _ (name : String) where
  insert_ticket : Value → Exec Bool
  unfolding get_value put_value
  insert_ticket body = do
    existing ← get_value name ticket_record_key
    if truthy existing
        then pure false
        else do put_value name ticket_record_key (issued_record body); pure true

  count_call : ℕ → ℕ → ℕ → Exec Bool
  unfolding get_value put_value
  count_call limit start seconds = do
    current ← get_value name rate_record_key
    elim (safe_nat (window_count current start seconds)) [
      | none ↦ pure false
      | some count ↦
          if leb limit count
          then pure false
          else do put_value name rate_record_key (rate_record start seconds (count + 1)); pure true
    ]

  -- The alarm at `time` and the transaction of `rate`, in the window that begins at `start`.
  unfoldable pub rate_in : ℕ → ℕ → ℕ → ℕ → Exec Reply
  unfolding set_alarm transaction count_call
  rate_in time limit start seconds = do
    set_alarm name time
    allowed ← transaction (count_call limit start seconds)
    pure (answer allowed (if allowed then 200 else 429))

  -- `rate(body)`
  unfoldable pub rate : ℕ → Value → Exec Reply
  rate ms body =
      if not (valid_internal_rate body)
      then pure (answer false 400)
      else elim (current_epoch_seconds ms) [
        | none ↦ pure (answer false 503)
        | some now ↦
            let seconds = size_of (get body "windowSeconds") in
            let start = window_start now seconds in
            rate_in ((start + seconds + 60) * 1000) (size_of (get body "limit")) start seconds
      ]

  -- `alarm()`
  unfoldable pub alarm : Exec (Unit {0})
  unfolding delete_all
  alarm = delete_all name

module _ (parse_url : String → Option Url) where
  -- The tests of a stored record against a redeem message, in the callback of the transaction.
  unfoldable pub redeemable : Value → Value → Option ℕ → Bool
  redeemable r body none = false
  redeemable r body (some now) =
      valid_stored_ticket parse_url r
      && strict_eq (get r "panelOrigin") (get body "panelOrigin")
      && strict_eq (get r "endpoint") (get body "endpoint")
      && strict_eq (get r "accessKeyHash") (get body "accessKeyHash")
      && includes (get body "allowedApplicationIds") (get r "applicationId")
      && ltb now (expires_of r)

  module _ (name : String) where
    consume_ticket : ℕ → Value → Exec Bool
    unfolding get_value put_value
    consume_ticket ms body = do
      r ← get_value name ticket_record_key
      elim (current_epoch_seconds ms) [
        | none ↦ pure false
        | some now ↦
            if redeemable r body (some now)
            then (do put_value name ticket_record_key (consumed_record r now); pure true)
            else pure false
      ]

    -- `issue(body)`
    unfoldable pub issue : ℕ → Value → Exec Reply
    unfolding set_alarm transaction insert_ticket
    issue ms body =
        if not (valid_internal_issue parse_url body)
        then pure (answer false 400)
        else elim (current_epoch_seconds ms) [
          | none ↦ pure (answer false 400)
          | some now ↦ if leb (expires_of body) now then pure (answer false 400) else do
            set_alarm name ((expires_of body + 60) * 1000)
            inserted ← transaction (insert_ticket name body)
            pure (if inserted then answer true 200 else answer false 409)
        ]

    -- `redeem(body)`
    unfoldable pub redeem : ℕ → Value → Exec Reply
    unfolding transaction consume_ticket
    redeem ms body =
        if not (valid_internal_redeem parse_url body) then pure (answer false 400) else do
          consumed ← transaction (consume_ticket ms body)
          pure (answer consumed (if consumed then 200 else 409))

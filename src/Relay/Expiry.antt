-- ===== src/Relay/Expiry.antt =====
-- Reading, printing and testing the expiry of a snapshot.
use clairveil_samples.Js.{
  Value, decimal_after-to_decimal, fraction, infinity, is_positive_decimal-to_decimal,
  max_safe_integer, nan, nat, neg, number, safe_nat, string, to_decimal, trim-to_decimal,
}
use clairveil_samples.Prelude.{
  Option, Option-cases, ap, arith, inl, inr, none, refl, some, sym, true, ℕ, ◌*◌, ◌<◌, ◌↔◌, ◌∙◌,
  ◌≡◌, ◌≤◌,
}
use clairveil_samples.Relay.Evidence.{sanitize-Sanitized}
use clairveil_samples.Relay.Sanitize.{
  RelaySnapshot, kept_snapshot, sanitize_relay_withdraw_snapshot,
}
use clairveil_samples.Relay.Snapshot.{
  expired_at, expiry_field, expiry_text, relay_chain_time, relay_expiry,
  relay_snapshot_expires_at_unix, relay_snapshot_is_expired, strict_positive_unix_seconds,
}

strict-to_decimal :
    (n : ℕ)
    → 0 < n
    → n ≤ max_safe_integer
    → strict_positive_unix_seconds (string (to_decimal n)) ≡ some n
unfolding strict_positive_unix_seconds
strict-to_decimal n pos le =
    rw (trim-to_decimal n, is_positive_decimal-to_decimal n pos, decimal_after-to_decimal n)
      (ground arith)

strict_bounds :
    (v : Value) (n : ℕ) → strict_positive_unix_seconds v ≡ some n → (0 < n) × (n ≤ max_safe_integer)
unfolding strict_positive_unix_seconds safe_nat
strict_bounds (number (nat k)) n h = ground arith
strict_bounds (number (neg k)) n h = cc
strict_bounds (number (fraction minus k text)) n h = cc
strict_bounds (number (infinity minus)) n h = cc
strict_bounds (number nan) n h = cc
strict_bounds (string s) n h = ground arith
strict_bounds _ n h = cc

no_expiry : strict_positive_unix_seconds (string (expiry_text none)) ≡ none
unfolding expiry_text strict_positive_unix_seconds
no_expiry = refl

strict-expiry_text :
    (v : Value)
    → strict_positive_unix_seconds (string (expiry_text (strict_positive_unix_seconds v)))
      ≡ strict_positive_unix_seconds v
unfolding expiry_text
strict-expiry_text v = elim (Option-cases (strict_positive_unix_seconds v)) [
  | inl missing ↦ rw missing no_expiry
  | inr (n, found) ↦
      let (pos, le) = strict_bounds v n found in rw found (strict-to_decimal n pos le)
]

-- Normalising the expiry of a snapshot to a decimal keeps its meaning: what is read back is what the
-- first expiry field of the snapshot gives, and nothing where that field gives nothing.
pub relay_expiry-expiry_field :
    (v : Value) → relay_expiry v ≡ strict_positive_unix_seconds (string (expiry_field v))
unfolding relay_snapshot_expires_at_unix
relay_expiry-expiry_field v = strict-expiry_text (string (expiry_field v))

-- The expiry that is kept across a restart reads as that of the snapshot it was taken from.
pub kept_expiry :
    (v : Value) (s : RelaySnapshot)
    → sanitize_relay_withdraw_snapshot v ≡ some s
    → strict_positive_unix_seconds (string s.expires_at_unix)
      ≡ strict_positive_unix_seconds (string (expiry_field v))
unfolding kept_snapshot
kept_expiry v s h =
    let p = sanitize-Sanitized v s h in
    ap (λ (t : RelaySnapshot). strict_positive_unix_seconds (string t.expires_at_unix)) (sym p.same)
    ∙ relay_expiry-expiry_field v

expired_at_iff :
    (expiry time : Option ℕ)
    → (expired_at expiry time ≡ true) ↔ (
        (seconds : ℕ) × (ms : ℕ) × (expiry ≡ some seconds)
        × (time ≡ some ms)
        × (seconds * 1000 ≤ ms))
expired_at_iff none time = (λ h. cc, λ h. cc)
expired_at_iff (some s) none = (λ h. cc, λ h. cc)
expired_at_iff (some s) (some ms) =
    (λ h. (s, ms, refl, refl, ground arith), λ (s', ms', p, q, le). ground arith)

-- A snapshot has expired at a chain time exactly when it has an expiry, the chain time is valid, and
-- it has come to the second of the expiry: the second itself counts as expired.
pub relay_snapshot_is_expired_iff :
    (v now : Value)
    → (relay_snapshot_is_expired v now ≡ true) ↔ (
        (seconds : ℕ) × (ms : ℕ) × (relay_expiry v ≡ some seconds)
        × (relay_chain_time now ≡ some ms)
        × (seconds * 1000 ≤ ms))
unfolding relay_snapshot_is_expired
relay_snapshot_is_expired_iff v now = expired_at_iff (relay_expiry v) (relay_chain_time now)

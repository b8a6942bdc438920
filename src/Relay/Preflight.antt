-- ===== src/Relay/Preflight.antt =====
-- The nullifier of a relay payload, and the check that precedes a submission.
use clairveil_samples.Js.{
  Value, get, is_empty, is_false, is_hash, is_undefined, lookup, string, strip_0x, to_lower_case,
  trim,
}
use clairveil_samples.Prelude.{
  Bool, List, Option, Result, String, [], every, false, if◌then◌else◌, none, not, ok, some, throw,
  ◌&&◌, ◌===◌, ◌>>=◌, ◌||◌, ◌∷◌,
}

unfoldable pub strict_nullifier_hex : Value → String
unfolding trim to_lower_case strip_0x is_hash
strict_nullifier_hex (string value) =
    let normalized = strip_0x (to_lower_case (trim value)) in
    if is_hash normalized then normalized else ""
strict_nullifier_hex _ = ""

unfoldable pub relay_payload_nullifiers : Value → Result (List String)
relay_payload_nullifiers payload =
    let canonical = strict_nullifier_hex (get "nullifier_hex" payload) in
    let alias = strict_nullifier_hex (get "nullifierHex" payload) in
    if is_empty canonical
    then throw "relay withdraw payload is missing input nullifiers"
    else if not (is_undefined (get "nullifierHex" payload))
        && (is_empty alias || not (alias === canonical))
    then throw "relay withdraw payload contains conflicting nullifier aliases"
    else ok (canonical ∷ [])

unfoldable pub relay_payload_nullifier_lock_key : Value → Result String
relay_payload_nullifier_lock_key payload = elim (relay_payload_nullifiers payload) [
  | throw e ↦ throw e
  | ok [] ↦ throw "TypeError"
  | ok (key ∷ keys) ↦ ok key
]

-- What `checkNullifiers` resolves to: it rejects, or gives no Map, or gives one.
pub data Statuses : Type 0 where
  unavailable malformed : Statuses
  statuses : List (String × Value) → Statuses

abbrev pub is_unspent : List (String × Value) → String → Bool
is_unspent found nullifier = elim (lookup nullifier found) [
  | none ↦ false
  | some status ↦ is_false status
]

-- What follows the query for `nullifiers`.
unfoldable pub after_check {ℓ} :
    {A : Type ℓ} → List String → (Unit {0} → Result A) → Statuses → Result A
after_check nullifiers submit unavailable = throw "relay withdraw nullifier status is unavailable"
after_check nullifiers submit malformed =
    throw "relay withdraw nullifier status is missing or malformed"
after_check nullifiers submit (statuses found) =
    if every (is_unspent found) nullifiers
    then submit tt
    else throw "relay withdraw requires explicitly unspent input nullifiers"

-- The callbacks, where they are functions: `check_nullifiers` from the nullifiers to the answer of the
-- query, `submit` to what the submission gives.
unfoldable pub submit_relay_after_nullifier_preflight {ℓ} :
    {A : Type ℓ} → Value → Option (List String → Statuses) → Option (Unit {0} → Result A) → Result A
unfolding after_check relay_payload_nullifiers
submit_relay_after_nullifier_preflight payload none submit =
    throw "relay withdraw nullifier preflight is not configured"
submit_relay_after_nullifier_preflight payload (some check) none =
    throw "relay withdraw nullifier preflight is not configured"
submit_relay_after_nullifier_preflight payload (some check) (some submit) = do
  nullifiers ← relay_payload_nullifiers payload
  after_check nullifiers submit (check nullifiers)

-- ===== src/Relay/Snapshot.antt =====
-- Reading a relay snapshot: identifiers, hashes, expiry, transaction outcome and recovery evidence.
-- Reading a property of `null` or of no object gives `undefined` (the source's `?.`).
use Prim.Native.Char.{code}
use clairveil_samples.Js.{
  Value, decimal_after, elements, end, get, has_own, is_nullish, is_positive_decimal, is_text,
  is_true, max_safe_integer, number, object, safe_nat, string, text_of, to_decimal, trim, truthy,
  ◌or◌,
}
use clairveil_samples.Prelude.{
  Bool, List, Option, String, [], false, if◌then◌else◌, keep, leb, ltb, map, none, not, some, true,
  ℕ, ◌&&◌, ◌++◌, ◌/◌, ◌==◌, ◌||◌, ◌∷◌,
}

unfoldable pub relay_reservation_ids : Value → List String
relay_reservation_ids reservation = elim (elements (get "reservation_ids" reservation)) [
  | none ↦ []
  | some ids ↦ map text_of (keep truthy ids)
]

-- The first value that is neither nullish nor the empty text.
unfoldable pub first_non_empty_string : List Value → String
first_non_empty_string [] = ""
first_non_empty_string (value ∷ values) =
    if is_nullish value || is_text "" value then first_non_empty_string values else text_of value

abbrev hash_fields : Value → List Value
hash_fields v = get "txhash" v ∷ get "txHash" v ∷ get "tx_hash" v ∷ []

unfoldable pub relay_broadcast_tx_hash : Value → String
unfolding first_non_empty_string
relay_broadcast_tx_hash source = first_non_empty_string (
    hash_fields (get "broadcast" source)
    ++ (hash_fields source
        ++ (hash_fields (get "source" source)
            ++ (hash_fields (get "data" source) ++ hash_fields (get "tx" source)))))

unfoldable pub strict_positive_unix_seconds : Value → Option ℕ
unfolding safe_nat trim is_positive_decimal decimal_after
strict_positive_unix_seconds (number n) = elim (safe_nat n) [
  | none ↦ none
  | some seconds ↦ if ltb 0 seconds then some seconds else none
]
strict_positive_unix_seconds (string value) =
    let normalized = trim value in
    let seconds = decimal_after 0 normalized in
    if is_positive_decimal normalized && leb seconds max_safe_integer && ltb 0 seconds
    then some seconds
    else none
strict_positive_unix_seconds _ = none

abbrev pub expiry_field : Value → String
expiry_field snapshot = first_non_empty_string (
    get "expiresAtUnix" snapshot
    ∷ get "expires_at_unix" snapshot
    ∷ get "expires_at_unix" (get "payload" snapshot)
    ∷ get "expiresAtUnix" (get "payload" snapshot)
    ∷ [])

unfoldable pub expiry_text : Option ℕ → String
expiry_text none = ""
expiry_text (some seconds) = to_decimal seconds

unfoldable pub relay_snapshot_expires_at_unix : Value → String
relay_snapshot_expires_at_unix snapshot =
    expiry_text (strict_positive_unix_seconds (string (expiry_field snapshot)))

-- `seconds` of a snapshot, or `null`.
abbrev pub relay_expiry : Value → Option ℕ
relay_expiry snapshot =
    strict_positive_unix_seconds (string (relay_snapshot_expires_at_unix snapshot))

-- The chain time in milliseconds, if it is a safe integer that is not negative.
unfoldable pub relay_chain_time : Value → Option ℕ
unfolding safe_nat
relay_chain_time (number n) = safe_nat n
relay_chain_time _ = none

unfoldable pub has_valid_relay_chain_time : Value → Bool
unfolding relay_chain_time
has_valid_relay_chain_time now = elim (relay_chain_time now) [ none ↦ false | some ms ↦ true ]

abbrev pub expired_at : Option ℕ → Option ℕ → Bool
expired_at none now = false
expired_at (some seconds) none = false
expired_at (some seconds) (some ms) = leb seconds (ms / 1000)

unfoldable pub relay_snapshot_is_expired : Value → Value → Bool
relay_snapshot_is_expired snapshot now = expired_at (relay_expiry snapshot) (relay_chain_time now)

pub data Outcome : Type 0 where
  success failed unknown : Outcome

unfoldable pub cosmos_tx_execution_outcome : Value → Outcome
unfolding relay_chain_time
cosmos_tx_execution_outcome tx = elim (relay_chain_time (get "code" tx)) [
  | none ↦ unknown
  | some code ↦ if code == 0 then success else failed
]

unfoldable pub has_durable_no_broadcast_evidence : Value → Bool
has_durable_no_broadcast_evidence reservation =
    let metadata = get "metadata" reservation or object end in
    let metadata_has_evidence =
      has_own "no_broadcast_attempt" metadata || has_own "noBroadcastAttempt" metadata in
    let source = if metadata_has_evidence then metadata else reservation in
    let explicitly_not_broadcast =
      is_true (get "no_broadcast_attempt" source) || is_true (get "noBroadcastAttempt" source) in
    if not explicitly_not_broadcast || is_true (get "opaque_broadcast_error" metadata)
    then false
    else not (
        truthy (get "submitted_tx_hash" reservation)
        || truthy (get "tx_bytes_hash" reservation)
        || truthy (get "sign_doc_hash" reservation)
        || truthy (get "submitted_tx_hash" metadata)
        || truthy (get "tx_bytes_hash" metadata)
        || truthy (get "sign_doc_hash" metadata))

record LeaseView : Type 0 where
  handed_off : Bool
  local_worker_state : Bool
  local_pre_broadcast : Bool
  worker_expired : Bool
  has_proof_ready : Bool

unfoldable can_replan_expired_local_reservation : Bool → Bool → Bool → Bool
can_replan_expired_local_reservation local_pre_broadcast worker_expired has_proof_ready =
    local_pre_broadcast && worker_expired && not has_proof_ready

unfoldable expired_relay_reservation_recovery_target : LeaseView → String
unfolding can_replan_expired_local_reservation
expired_relay_reservation_recovery_target v =
    if v.handed_off || not v.local_worker_state || not v.worker_expired
    then ""
    else if v.has_proof_ready
    then "ManualReview"
    else if can_replan_expired_local_reservation v.local_pre_broadcast v.worker_expired
        v.has_proof_ready
    then "ReplanRequired"
    else ""

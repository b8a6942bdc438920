-- ===== src/Relay/Readiness.antt =====
-- When a prepared payload may be shown, copied again, or handed to a relayer. `proof_ready` is the
-- library's name of the state ProofReady; `current` is the map of records freshly read, if one is given.
use clairveil_samples.Js.{
  Number, Value, get, is_empty, is_text, is_true, is_zero, lookup, nat, null, number, text_or_empty,
  to_number, truthy, undefined, ◌or_nullish◌, ◌or◌,
}
use clairveil_samples.Prelude.{
  Bool, List, Option, String, [], every, false, find, if◌then◌else◌, length, none, not, some, true,
  unique, ◌&&◌, ◌===◌, ◌==◌, ◌||◌, ◌∷◌,
}
use clairveil_samples.Relay.Sanitize.{array_or_empty, either_text}
use clairveil_samples.Relay.Snapshot.{
  first_non_empty_string, has_valid_relay_chain_time, relay_expiry, relay_reservation_ids,
  relay_snapshot_is_expired,
}

unfoldable pub relay_snapshot_payload_hash : Value → String
unfolding first_non_empty_string
relay_snapshot_payload_hash snapshot =
    let declared =
      first_non_empty_string (get "payloadHash" snapshot ∷ get "payload_hash" snapshot ∷ []) in
    let embedded = first_non_empty_string (
      get "payload_hash" (get "payload" snapshot)
      ∷ get "payloadHash" (get "payload" snapshot)
      ∷ []) in
    if is_empty declared || is_empty embedded || not (declared === embedded) then "" else declared

unfoldable pub relay_reservation_record : Value → String → Option (List (String × Value)) → Value
unfolding lookup
relay_reservation_record reservation id none =
    elim (find (λ v. is_text id (get "reservation_id" v))
      (array_or_empty (get "reservations" reservation))) [ none ↦ undefined | some v ↦ v ]
relay_reservation_record reservation id (some current) = elim (lookup id current) [
  | none ↦ null
  | some v ↦ v or null
]

abbrev pub relay_hash_of : Value → String
relay_hash_of snapshot =
    first_non_empty_string (get "relayHash" snapshot ∷ get "relay_hash" snapshot ∷ [])

unfoldable pub attempt_count : Value → Number
attempt_count v = to_number (
    get "broadcast_attempt_count" v
    or_nullish (get "broadcastAttemptCount" v or_nullish number (nat 0)))

-- The record is in the state ProofReady, of this operation and payload, and no attempt to broadcast
-- it has begun.
unfoldable pub record_matches : String → String → String → Value → Bool
unfolding is_zero
record_matches proof_ready operation_id payload_hash v =
    truthy v
    && text_or_empty (get "status" v) === proof_ready
    && either_text "operation_id" "operationId" v === operation_id
    && either_text "payload_hash" "payloadHash" v === payload_hash
    && not (is_true (get "broadcast_in_flight" v))
    && not (is_true (get "broadcastInFlight" v))
    && is_zero (attempt_count v)

-- The record says that its payload was handed to a relayer, by any of four fields.
unfoldable pub record_handed_off : Value → Bool
record_handed_off v =
    is_true (get "relay_handed_off" v)
    || is_true (get "relayHandedOff" v)
    || is_true (get "relay_handed_off" (get "metadata" v))
    || is_true (get "relayHandedOff" (get "metadata" v))

unfoldable pub record_has_tx_identity : Value → Bool
record_has_tx_identity v =
    truthy (get "submitted_tx_hash" v)
    || truthy (get "submittedTxHash" v)
    || truthy (get "tx_bytes_hash" v)
    || truthy (get "txBytesHash" v)
    || truthy (get "sign_doc_hash" v)
    || truthy (get "signDocHash" v)

-- The part of both tests that is about the reservation: an operation, at least one id, no id twice,
-- and a record that passes `test operation_id payload_hash` for every id.
unfoldable pub every_record :
    (String → String → Value → Bool) → Value → Option (List (String × Value)) → Bool
unfolding relay_reservation_ids relay_snapshot_payload_hash
every_record test snapshot current =
    let reservation = get "reservation" snapshot in
    let payload_hash = relay_snapshot_payload_hash snapshot in
    let operation_id = either_text "operation_id" "operationId" reservation in
    let ids = relay_reservation_ids reservation in
    not (is_empty payload_hash)
    && not (is_empty operation_id)
    && not (length ids == 0)
    && length (unique ids) == length ids
    && every
        (λ id. test operation_id payload_hash (relay_reservation_record reservation id current)) ids

unfoldable pub is_relay_snapshot_structurally_ready :
    Value → Option (List (String × Value)) → String → Bool
unfolding first_non_empty_string
is_relay_snapshot_structurally_ready snapshot current proof_ready =
    truthy (get "payload" snapshot)
    && not (truthy (get "submitted" snapshot))
    && not (truthy (get "handedOff" snapshot))
    && not (truthy (get "handed_off" snapshot))
    && is_empty (relay_hash_of snapshot)
    && (elim (relay_expiry snapshot) [ none ↦ false | some seconds ↦ true ])
    && every_record
        (λ operation_id payload_hash v.
          record_matches proof_ready operation_id payload_hash v && not (record_handed_off v))
        snapshot current

unfoldable pub can_relay_handoff_payload_be_copied :
    Value → Option (List (String × Value)) → String → Bool
unfolding first_non_empty_string
can_relay_handoff_payload_be_copied snapshot none proof_ready = false
can_relay_handoff_payload_be_copied snapshot (some current) proof_ready =
    truthy (get "payload" snapshot)
    && not (truthy (get "submitted" snapshot))
    && is_empty (relay_hash_of snapshot)
    && (elim (relay_expiry snapshot) [ none ↦ false | some seconds ↦ true ])
    && every_record
        (λ operation_id payload_hash v.
          record_matches proof_ready operation_id payload_hash v
          && record_handed_off v
          && not (record_has_tx_identity v))
        snapshot (some current)

unfoldable pub can_relay_snapshot_be_submitted :
    Value → Option (List (String × Value)) → String → Value → Bool
unfolding has_valid_relay_chain_time relay_snapshot_is_expired
can_relay_snapshot_be_submitted snapshot current proof_ready now =
    is_relay_snapshot_structurally_ready snapshot current proof_ready
    && has_valid_relay_chain_time now
    && not (relay_snapshot_is_expired snapshot now)

-- ===== src/Recovery/Rejected.antt =====
-- public/reservation-reconciliation.js: the evidence that a transaction was rejected or failed.
use clairveil_samples.Js.{
  Value, end, get, is_empty, is_false, is_text, is_true, object, safe_nat, string, text_of,
  to_number, trim, ◌or_nullish◌, ◌or◌,
}
use clairveil_samples.Prelude.{
  Bool, Option, String, false, if◌then◌else◌, ltb, none, not, some, true, ℕ, ◌&&◌, ◌===◌, ◌||◌,
}
use clairveil_samples.Status.Cosmos.{cosmos_reservation_transaction_hash, normalized_tx_hash}

-- `metadata.name ?? metadata.alias`
abbrev either : Value → String → String → Value
either metadata name alias = get name metadata or_nullish get alias metadata

abbrev is_either : Value → String → String → Bool
is_either metadata name alias = is_true (get name metadata) || is_true (get alias metadata)

-- `record?.metadata || {}`
abbrev metadata_of : Value → Value
metadata_of v = get "metadata" v or object end

-- reservationHasExplicitBroadcastRejection
unfoldable pub reservation_has_explicit_broadcast_rejection : Value → Bool
reservation_has_explicit_broadcast_rejection v =
    let metadata = metadata_of v in
    is_text "ReplanRequired" (get "status" v)
    && not (is_true (get "broadcast_in_flight" v))
    && not (is_either metadata "check_tx_rejected" "checkTxRejected")
    && is_false (either metadata "rpc_invoked" "rpcInvoked")
    && is_true (either metadata "no_broadcast_attempt" "noBroadcastAttempt")
    && is_true (either metadata "proof_discarded" "proofDiscarded")
    && (is_either metadata "wallet_rejected_before_broadcast" "walletRejectedBeforeBroadcast"
        || is_either metadata "broadcast_aborted_before_rpc" "broadcastAbortedBeforeRpc")

-- reservationHasPendingCheckTxRejection
unfoldable pub reservation_has_pending_check_tx_rejection : Value → Bool
reservation_has_pending_check_tx_rejection v =
    let metadata = metadata_of v in
    is_text "Unknown" (get "status" v)
    && not (is_true (get "broadcast_in_flight" v))
    && is_true (either metadata "rpc_invoked" "rpcInvoked")
    && is_true (either metadata "check_tx_rejected" "checkTxRejected")
    && is_false (either metadata "no_broadcast_attempt" "noBroadcastAttempt")
    && not (is_true (either metadata "proof_discarded" "proofDiscarded"))
    && not (
        is_empty (
          trim (
            text_of (
              either metadata "provider_rejection_code" "providerRejectionCode"
              or_nullish string ""))))

-- Number.isSafeInteger(height) && height > 0, with the height.
unfoldable pub safe_height : Value → Option ℕ
safe_height v = elim (safe_nat (to_number v)) [
  | none ↦ none
  | some height ↦ if ltb 0 height then some height else none
]

-- reservationHasReconciledCheckTxFailure
unfoldable pub reservation_has_reconciled_check_tx_failure : Value → Value → Bool
reservation_has_reconciled_check_tx_failure v tx_hash =
    let metadata = metadata_of v in
    let expected = normalized_tx_hash tx_hash in
    is_text "ReplanRequired" (get "status" v)
    && not (is_true (get "broadcast_in_flight" v))
    && not (is_empty expected)
    && normalized_tx_hash (either metadata "tx_hash_checked" "txHashChecked") === expected
    && cosmos_reservation_transaction_hash v === expected
    && elim (safe_height (either metadata "checked_height" "checkedHeight")) [
      | none ↦ false
      | some height ↦ true
    ]
    && is_true (either metadata "rpc_invoked" "rpcInvoked")
    && is_true (either metadata "check_tx_rejected" "checkTxRejected")
    && is_true (either metadata "proof_discarded" "proofDiscarded")
    && is_true (either metadata "nullifier_unspent_confirmed" "nullifierUnspentConfirmed")
    && is_true (either metadata "tx_absent_or_failed_confirmed" "txAbsentOrFailedConfirmed")
    && is_text "authoritative_exact_broadcast_failure"
        (either metadata "reconcile_reason" "reconcileReason")

-- ===== src/Status/Cosmos.antt =====
-- public/cosmos-transaction-evidence.js: what is evidence of a Cosmos transaction.
use clairveil_samples.Js.{
  Value, decimal_after, every_char, get, has_own, is_canonical_decimal, is_empty, is_false, is_hash,
  is_object_like, is_positive, is_text, is_true, max_safe_integer, nat, number, safe_nat, size,
  string, strip_0x, text_or_empty, to_decimal, to_lower_case, to_number, trim, ◌or_nullish◌, ◌or◌,
}
use clairveil_samples.Prelude.{
  Bool, List, Option, String, [], false, find, has, if◌then◌else◌, keep, leb, ltb, map, none, not,
  some, some_of, true, unique, ℕ, ◌&&◌, ◌===◌, ◌==◌, ◌||◌, ◌∷◌,
}

-- canonicalCosmosTxCode
unfoldable pub canonical_cosmos_tx_code : Value → Option ℕ
canonical_cosmos_tx_code (number n) = safe_nat n
canonical_cosmos_tx_code (string s) =
    if is_canonical_decimal s && leb (decimal_after 0 s) max_safe_integer
    then some (decimal_after 0 s)
    else none
canonical_cosmos_tx_code _ = none

abbrev is_positive_code : Option ℕ → Bool
is_positive_code none = false
is_positive_code (some n) = ltb 0 n

-- checkTxRejectionMarker
unfoldable pub check_tx_rejection_marker : Value → Bool
check_tx_rejection_marker value =
    (is_true (get "checkTxRejected" value) || is_true (get "check_tx_rejected" value))
    && (is_true (get "rpcInvoked" value) || is_true (get "rpc_invoked" value))

abbrev is_marker : Value → Bool
is_marker v = is_true v || is_object_like v

-- explicitRejectionMarker
unfoldable pub explicit_rejection_marker : Value → Bool
explicit_rejection_marker value =
    is_marker (get "explicitBroadcastRejection" value)
    || is_marker (get "explicit_broadcast_rejection" value)
    || is_marker (get "broadcastRejected" value)
    || is_marker (get "broadcast_rejected" value)

-- topLevelBroadcastErrorCode
unfoldable pub top_level_broadcast_error_code : Value → Option ℕ
top_level_broadcast_error_code value =
    if has_own "code" value && has_own "codespace" value && has_own "log" value
    then canonical_cosmos_tx_code (get "code" value)
    else none

-- The value, its broadcast and its cause, where they are objects.
unfoldable pub evidence_sources : Value → List Value
evidence_sources value =
    keep is_object_like (value ∷ get "broadcast" value ∷ get "cause" value ∷ [])

-- cosmosTxEvidenceConfirmsFailure
unfoldable pub cosmos_tx_evidence_confirms_failure : Value → Bool
cosmos_tx_evidence_confirms_failure value =
    let sources = evidence_sources value in
    if is_positive_code (canonical_cosmos_tx_code (get "code" (get "tx" value)))
      || is_positive_code (canonical_cosmos_tx_code (get "code" (get "tx" (get "broadcast" value))))
    then true
    else if some_of check_tx_rejection_marker sources
    then false
    else some_of explicit_rejection_marker sources
      || some_of (λ source. is_positive_code (top_level_broadcast_error_code source)) sources

abbrev is_control : ℕ → Bool
is_control c = leb c 0x1f || c == 0x7f

-- canonicalProviderCodespace; `none` stands for null.
unfoldable pub canonical_provider_codespace : Value → Option String
canonical_provider_codespace (string value) =
    let codespace = trim value in
    if ltb 128 (size codespace) || not (every_char (λ c. not (is_control c)) codespace)
    then none
    else some codespace
canonical_provider_codespace _ = none

pub record RejectionEvidence : Type 0 where
  pub provider_code : String
  -- Left out where it is empty.
  pub provider_codespace : String

abbrev first_positive_code : List Value → Option ℕ
first_positive_code [] = none
first_positive_code (value ∷ values) =
    let rest = first_positive_code values in
    if is_positive_code (canonical_cosmos_tx_code value)
    then canonical_cosmos_tx_code value
    else rest

abbrev rejection_evidence : Option ℕ → Option String → Option RejectionEvidence
rejection_evidence (some n) (some codespace) =
    some (record { provider_code = to_decimal n; provider_codespace = codespace })
rejection_evidence _ _ = none

-- cosmosCheckTxRejectionEvidence
unfoldable pub cosmos_check_tx_rejection_evidence : Value → Option RejectionEvidence
cosmos_check_tx_rejection_evidence value =
    elim (find check_tx_rejection_marker (evidence_sources value)) [
      | none ↦ none
      | some source ↦
          rejection_evidence
            (first_positive_code (
              get "providerCode" source
              ∷ get "provider_code" source
              ∷ get "txCode" source
              ∷ get "code" source
              ∷ []))
            (canonical_provider_codespace (
              get "providerCodespace" source
              or_nullish get "provider_codespace" source
              or_nullish get "codespace" source
              or_nullish string ""))
    ]

-- normalizedTxHash
unfoldable pub normalized_tx_hash : Value → String
normalized_tx_hash value =
    let hash = strip_0x (to_lower_case (trim (text_or_empty value))) in
    if is_hash hash then hash else ""

-- cosmosPublicCheckTxRejectionCanClear
unfoldable pub cosmos_public_check_tx_rejection_can_clear : Value → Value → Bool
cosmos_public_check_tx_rejection_can_clear entry check =
    let entry_hash = normalized_tx_hash (get "txHash" entry) in
    is_text "unknown" (get "status" entry)
    && is_true (get "rpcInvoked" entry)
    && is_true (get "checkTxRejected" entry)
    && is_positive_code (canonical_cosmos_tx_code (get "providerCode" entry))
    && not (is_empty entry_hash)
    && entry_hash === normalized_tx_hash (get "txHash" check)
    && is_true (get "checked" check)
    && is_true (get "absent" check)
    && not (is_true (get "included" check))
    && is_positive_code (canonical_cosmos_tx_code (get "checkedHeight" check))

abbrev attempted_statuses : List String
attempted_statuses = "Submitted" ∷ "Unknown" ∷ "ConfirmedSpent" ∷ []

-- reservationHasDurableBroadcastAttempt
unfoldable pub reservation_has_durable_broadcast_attempt : Value → Bool
reservation_has_durable_broadcast_attempt v =
    is_true (get "broadcast_in_flight" v)
    || is_positive (to_number (get "broadcast_attempt_count" v or number (nat 0)))
    || has (text_or_empty (get "status" v)) attempted_statuses

abbrev pub raw_hash : String → Value → String
raw_hash name v = trim (text_or_empty (get name v))

-- The hash, of the two identities as they are written and as they are read.
unfoldable pub agreed_hash : String → String → String → String → Bool → String
agreed_hash raw_submitted submitted raw_bytes bytes attempted =
    if not (is_empty raw_submitted) && is_empty submitted
      || not (is_empty raw_bytes) && is_empty bytes
      || not (is_empty submitted) && not (is_empty bytes) && not (submitted === bytes)
    then ""
    else if not (is_empty submitted)
    then submitted
    else if not (is_empty bytes) && attempted
    then bytes
    else ""

-- cosmosReservationTransactionHash
unfoldable pub cosmos_reservation_transaction_hash : Value → String
cosmos_reservation_transaction_hash v =
    agreed_hash (raw_hash "submitted_tx_hash" v)
      (normalized_tx_hash (string (raw_hash "submitted_tx_hash" v))) (raw_hash "tx_bytes_hash" v)
      (normalized_tx_hash (string (raw_hash "tx_bytes_hash" v)))
      (reservation_has_durable_broadcast_attempt v)

abbrev only_hash : List String → String
only_hash (hash ∷ []) = hash
only_hash _ = ""

-- commonCosmosReservationTransactionHash
unfoldable pub common_cosmos_reservation_transaction_hash : List Value → String
common_cosmos_reservation_transaction_hash records =
    let hashes = map cosmos_reservation_transaction_hash records in
    if some_of is_empty hashes then "" else only_hash (unique hashes)

-- cosmosPrivatePendingMarkerCanClear
unfoldable pub cosmos_private_pending_marker_can_clear : Value → Value → Value → Bool
cosmos_private_pending_marker_can_clear marker_tx_hash tx_hash error =
    let marker = normalized_tx_hash marker_tx_hash in
    if is_empty marker || not (marker === normalized_tx_hash tx_hash)
    then false
    else is_false (get "rpcInvoked" error) || is_false (get "rpc_invoked" error)

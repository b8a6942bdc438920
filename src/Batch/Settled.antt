-- ===== src/Batch/Settled.antt =====
-- Whether the reservations of a batch transfer succeeded, or ask for a reconciliation.
use clairveil_samples.Batch.Amounts.{canonical_hex}
use clairveil_samples.Js.{
  Value, get, is_empty, is_true, string, text_of, text_or_empty, truthy, ◌or_nullish◌, ◌or◌,
}
use clairveil_samples.Prelude.{
  Bool, List, Option, String, [], arith, eq_iff, every, false, has, if◌then◌else◌, length, ltb,
  none, not, refl, some, some_of, true, ℕ, ◌&&◌, ◌===◌, ◌==◌, ◌||◌, ◌∷◌, ◌≡◌,
}

-- `record?.metadata || {}`, read by two names.
abbrev either : String → String → Value → Value
either name other v = get name v or_nullish get other v

-- The turn of batchTransferReservationsSucceeded for one reservation.
unfoldable pub reservation_succeeded : String → Value → Bool
reservation_succeeded evidence_hash reservation =
    let metadata = get "metadata" reservation in
    let evidence_required =
      get "operation_success_evidence_required" metadata
      or_nullish get "operationSuccessEvidenceRequired" metadata
      or_nullish get "operation_success_evidence_required" reservation
      or_nullish get "operationSuccessEvidenceRequired" reservation in
    let stored_evidence_hash =
      canonical_hex
        (either "expected_operation_evidence_hash" "expectedOperationEvidenceHash" reservation) in
    text_or_empty (get "status" reservation) === "ConfirmedSpent"
    && is_true evidence_required
    && text_of (either "operation_status" "operationStatus" metadata or_nullish string "")
      === "Succeeded"
    && is_true
        (either "operation_success_evidence_matches" "operationSuccessEvidenceMatches" metadata)
    && stored_evidence_hash === evidence_hash

-- batchTransferReservationsSucceeded; `expected_count` is `reservations.length` where none is given.
unfoldable pub batch_transfer_reservations_succeeded : List Value → Option ℕ → Value → Bool
batch_transfer_reservations_succeeded reservations expected_count expected_operation_evidence_hash =
    let evidence_hash = canonical_hex expected_operation_evidence_hash in
    let count : ℕ = elim expected_count [ none ↦ length reservations | some n ↦ n ] in
    if is_empty evidence_hash || not (length reservations == count) || ltb count 1
    then false
    else every (reservation_succeeded evidence_hash) reservations

abbrev pub ambiguous_statuses : List String
ambiguous_statuses = "Submitted" ∷ "Unknown" ∷ "ManualReview" ∷ []

-- A reservation whose transaction may have reached the network.
unfoldable pub is_durably_ambiguous : Value → Bool
is_durably_ambiguous reservation =
    has (text_or_empty (get "status" reservation)) ambiguous_statuses
    || is_true (get "broadcast_in_flight" reservation)
    || is_true (get "broadcastInFlight" reservation)

-- batchTransferNeedsReconciliation
unfoldable pub batch_transfer_needs_reconciliation : Value → Value → List Value → Bool
batch_transfer_needs_reconciliation explicit has_broadcast_evidence reservations =
    if truthy explicit
    then true
    else if truthy has_broadcast_evidence || some_of is_durably_ambiguous reservations
    then true
    else false

-- batchTransferErrorRequiresReconciliation
unfoldable pub batch_transfer_error_requires_reconciliation : Value → Bool
batch_transfer_error_requires_reconciliation error = truthy (
    get "reservationReconciliationRequired" error
    or get "batchTransferReconciliationRequired" error)

abbrev pub is_in_flight : Value → Bool
is_in_flight reservation =
    is_true (get "broadcast_in_flight" reservation) || is_true (get "broadcastInFlight" reservation)

confirmed_not_ambiguous :
    (reservation : Value)
    → text_or_empty (get "status" reservation) ≡ "ConfirmedSpent"
    → is_in_flight reservation ≡ false
    → is_durably_ambiguous reservation ≡ false
unfolding is_durably_ambiguous
confirmed_not_ambiguous reservation e landed = rw e (ground (arith, landed))

succeeded_status :
    (hash : String) (reservation : Value)
    → reservation_succeeded hash reservation ≡ true
    → text_or_empty (get "status" reservation) ≡ "ConfirmedSpent"
unfolding reservation_succeeded
succeeded_status hash reservation h =
    ground (arith, h, eq_iff (text_or_empty (get "status" reservation)) "ConfirmedSpent")

none_ambiguous :
    (hash : String) (reservations : List Value)
    → every (reservation_succeeded hash) reservations ≡ true
    → some_of is_in_flight reservations ≡ false
    → some_of is_durably_ambiguous reservations ≡ false
none_ambiguous hash [] h landed = refl
none_ambiguous hash (reservation ∷ reservations) h landed = ground (
  arith,
  h,
  landed,
  none_ambiguous hash reservations,
  succeeded_status hash reservation,
  confirmed_not_ambiguous reservation,
)

-- A batch transfer whose reservations all succeeded, none of them in flight, needs no reconciliation,
-- unless one was asked for or there is evidence of a broadcast.
pub settled_needs_no_reconciliation :
    (reservations : List Value) (expected_count : Option ℕ) (hash explicit evidence : Value)
    → batch_transfer_reservations_succeeded reservations expected_count hash ≡ true
    → some_of is_in_flight reservations ≡ false
    → truthy explicit ≡ false
    → truthy evidence ≡ false
    → batch_transfer_needs_reconciliation explicit evidence reservations ≡ false
unfolding batch_transfer_reservations_succeeded batch_transfer_needs_reconciliation
settled_needs_no_reconciliation reservations expected_count hash explicit evidence h landed unasked
      absent =
    ground (arith, h, unasked, absent, none_ambiguous (canonical_hex hash) reservations, landed)

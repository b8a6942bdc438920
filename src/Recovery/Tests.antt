-- ===== src/Recovery/Tests.antt =====
-- Runs of the recovery, and the theorems at concrete inputs.
use clairveil_samples.Js.{
  Value, boolean, end, every_char, field, get, get_field, insert, is_empty, is_hash, is_positive,
  is_space, is_zero, lookup, lower_char, nat, null, number, object, safe_nat, set_field, set_own,
  size, string, strip_0x, text_of, text_or_empty, to_lower_case, to_number, trim, trim_end,
  trim_start, truthy,
}
use clairveil_samples.Prelude.{
  Bool, List, Option, String, [], false, has, if◌then◌else◌, leb, none, ok, refl, some, true, ℕ,
  ◌↔◌, ◌∷◌, ◌≡◌,
}
use clairveil_samples.Recovery.Assess.{
  assess_reservation_recovery, decide, reconcile, review_replan, signs,
}
use clairveil_samples.Recovery.Failed.{
  BroadcastFailure, can_mark, common_reservation_status, failure_token,
  replan_explicitly_failed_reservations,
}
use clairveil_samples.Recovery.Grouping.{records_of}
use clairveil_samples.Recovery.Groups.{
  add_succeeded, group_by_key, group_reservation_operations, insert_ordered, operation_succeeded,
  order_by, record_succeeded, succeeded_operation_lookup_keys,
}
use clairveil_samples.Recovery.Marking.{Marked, replan_explicitly_failed-Marked}
use clairveil_samples.Recovery.Records.{
  broadcast_attempted_of, has_sign_doc_identity, has_transaction_identity, lease_is_live,
  relay_handed_off_of, reservation_metadata, reservation_operation_key,
}
use clairveil_samples.Recovery.Rejected.{safe_height}
use clairveil_samples.Recovery.Succeeded.{succeeded_keys_iff}
use clairveil_samples.Recovery.Unordered.{notes}
use clairveil_samples.Status.Cosmos.{normalized_tx_hash}

abbrev at_most : String → String → Bool
at_most s t = leb (size s) (size t)

abbrev no_dates : String → Option ℕ
no_dates s = if is_empty s then none else some 5000

abbrev reserved : Value
reserved = object (
    field "status" (string "Reserved")
      (field "operation_id" (string "op-1") (field "reservation_id" (string "r-1") end)))

abbrev submitted : Value
submitted = object (
    field "status" (string "ProofReady")
      (field "operation_id" (string "op-1") (field "broadcast_in_flight" (boolean true) end)))

replans_reserved :
    (assess_reservation_recovery no_dates "tab-1" 1000 (reserved ∷ null ∷ [])).action
    ≡ review_replan
unfolding assess_reservation_recovery signs decide relay_handed_off_of broadcast_attempted_of
    has_sign_doc_identity has_transaction_identity reservation_metadata lease_is_live text_of
    text_or_empty truthy get get_field trim trim_start trim_end is_space to_number is_positive
    is_zero size
replans_reserved = refl

reconciles_in_flight :
    (assess_reservation_recovery no_dates "tab-1" 1000 (submitted ∷ [])).action ≡ reconcile
unfolding assess_reservation_recovery signs decide relay_handed_off_of broadcast_attempted_of
    has_sign_doc_identity has_transaction_identity reservation_metadata lease_is_live text_of
    text_or_empty truthy get get_field trim trim_start trim_end is_space to_number is_positive
    is_zero size
reconciles_in_flight = refl

abbrev spent : String → String → Value
spent operation note = object (
    field "status" (string "ConfirmedSpent") (
      field "operation_id" (string operation) (
        field "nullifier_lookup_key" (string note) (
          field "metadata"
            (object (
              field "operation_status" (string "Succeeded")
                (field "operation_success_evidence_matches" (boolean true) end)))
            end))))

abbrev mixed_records : List Value
mixed_records = spent "op-2" "n-1" ∷ reserved ∷ spent "op-2" "n-2" ∷ spent "op-1" "n-3" ∷ []

keeps_succeeded : succeeded_operation_lookup_keys at_most mixed_records ≡ "n-1" ∷ "n-2" ∷ []
unfolding succeeded_operation_lookup_keys add_succeeded group_reservation_operations order_by
    insert_ordered group_by_key reservation_operation_key record_succeeded text_of text_or_empty
    truthy get get_field insert lookup size
keeps_succeeded = refl

succeeded_keys_iff_example :
    (has "n-2" (succeeded_operation_lookup_keys at_most mixed_records) ≡ true) ↔ (
      (key : String) × (is_empty key ≡ false)
      × (operation_succeeded (records_of key mixed_records) ≡ true)
      × (notes "n-2" (records_of key mixed_records) ≡ true))
succeeded_keys_iff_example = succeeded_keys_iff "n-2" at_most mixed_records

abbrev failed_hash_text : String
failed_hash_text = "00000000000000000000000000000000000000000000000000000000000000ab"

abbrev unknown_record : Value
unknown_record = object (
    field "status" (string "Unknown") (
      field "reservation_id" (string "r-7")
        (field "submitted_tx_hash" (string failed_hash_text) end)))

abbrev unknown_failure : BroadcastFailure
unknown_failure = record {
  reservation_ids = "r-7" ∷ [];
  tx_hash_checked = string failed_hash_text;
  checked_height = 12;
  lease_token = "";
  evidence = object (
      field "reconcile_reason" (string "checked_transaction_failed") (
        field "nullifier_unspent_confirmed" (boolean true) (
          field "tx_absent_or_failed_confirmed" (boolean true) (
            field "checked_height" (number (nat 12))
              (field "tx_hash_checked" (string failed_hash_text) end)))));
}

marks_unknown :
    replan_explicitly_failed_reservations can_mark
      (unknown_record ∷ [])
      (string failed_hash_text)
      (number (nat 12))
      (object end)
      false
    ≡ ok unknown_failure
unfolding replan_explicitly_failed_reservations normalized_tx_hash is_hash strip_0x to_lower_case
    lower_char every_char size trim trim_start trim_end is_space text_or_empty text_of truthy get
    get_field safe_height safe_nat to_number common_reservation_status failure_token set_own
    set_field
marks_unknown = refl

replan_explicitly_failed-Marked_example : Marked false (unknown_record ∷ []) unknown_failure
replan_explicitly_failed-Marked_example =
    replan_explicitly_failed-Marked can_mark (unknown_record ∷ []) (string failed_hash_text)
      (number (nat 12)) (object end) false unknown_failure marks_unknown

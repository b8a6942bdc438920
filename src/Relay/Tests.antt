-- ===== src/Relay/Tests.antt =====
-- Runs of the relay reservation state, and the theorems at concrete inputs.
use clairveil_samples.Js.{
  Fields, Value, array, boolean, cons, decimal_after, decimal_before, elements, end, every_char,
  field, get, get_field, is_positive_decimal, is_space, is_zero, items, lookup, nat, nil, null,
  number, number_text, object, safe_nat, string, text_of, text_or_empty, to_decimal, to_number,
  trim, trim_end, trim_start, truthy,
}
use clairveil_samples.Prelude.{
  All, List, Result, String, [], false, map, none, ok, refl, some, true, ℕ, ◌↔◌, ◌∷◌, ◌≡◌,
}
use clairveil_samples.Relay.Evidence.{IsKept, sanitize_relay_withdraw_snapshot-IsKept}
use clairveil_samples.Relay.Expiry.{kept_expiry}
use clairveil_samples.Relay.Fresh.{update_reservation_batch_records-ids}
use clairveil_samples.Relay.Nullifiers.{
  Cleared, Locks, relay_payload_nullifiers_iff, submit_relay_after_nullifier_preflight_iff,
}
use clairveil_samples.Relay.Preflight.{
  Statuses, relay_payload_nullifiers, statuses, submit_relay_after_nullifier_preflight,
}
use clairveil_samples.Relay.Readiness.{
  attempt_count, can_relay_handoff_payload_be_copied, can_relay_snapshot_be_submitted, every_record,
  is_relay_snapshot_structurally_ready, record_handed_off, record_matches, relay_reservation_record,
  relay_snapshot_payload_hash,
}
use clairveil_samples.Relay.Records.{MaySubmit}
use clairveil_samples.Relay.Restored.{IsWhole, parse_saved-IsWhole}
use clairveil_samples.Relay.Sanitize.{
  RelaySnapshot, ReservationRecord, batch_records, either_text,
  has_complete_relay_reservation_evidence, invalid_state, kept_payload_hash, kept_snapshot,
  parse_saved, records_complete, sanitize_relay_withdraw_snapshot, sanitize_reservation_batch,
  sanitize_reservation_record, trimmed_ids,
}
use clairveil_samples.Relay.Snapshot.{
  expiry_field, expiry_text, first_non_empty_string, has_valid_relay_chain_time, relay_chain_time,
  relay_reservation_ids, relay_snapshot_expires_at_unix, relay_snapshot_is_expired,
  strict_positive_unix_seconds,
}
use clairveil_samples.Relay.Submission.{
  can_relay_snapshot_be_submitted_iff, structurally_ready_not_copied,
}
use clairveil_samples.Relay.Update.{update_reservation_batch_records}

abbrev text_field : String → String → Fields → Fields
text_field name text fields = field name (string text) fields

abbrev ready_record : Value
ready_record = object (
    text_field "reservation_id" "a" (
      text_field "operation_id" "op"
        (text_field "status" "ProofReady" (text_field "payload_hash" "p" end))))

abbrev ready_batch : Value
ready_batch = object (
    text_field "operation_id" "op" (
      field "reservation_ids" (array (cons (string "a") nil))
        (field "reservations" (array (cons ready_record nil)) end)))

abbrev ready_snapshot : Value
ready_snapshot = object (
    field "payload" (object (text_field "payload_hash" "p" end)) (
      text_field "payloadHash" "p"
        (field "expiresAtUnix" (number (nat 100)) (field "reservation" ready_batch end))))

abbrev kept_record : ReservationRecord
kept_record = record {
  reservation_id = "a";
  operation_id = "op";
  status = "ProofReady";
  payload_hash = "p";
  submitted_tx_hash = "";
  tx_bytes_hash = "";
  sign_doc_hash = "";
  broadcast_in_flight = false;
  broadcast_attempt_count = nat 0;
}

abbrev ready_kept : RelaySnapshot
ready_kept = record {
  id = "p";
  reservation = record {
    operation_id = "op";
    reservation_ids = "a" ∷ [];
    reservations = kept_record ∷ [];
  };
  expires_at_unix = "100";
  payload_hash = "p";
  submitted = false;
  handed_off = false;
  relay_hash = "";
  relay_height = "";
}

ready_is_submitted :
    can_relay_snapshot_be_submitted ready_snapshot none "ProofReady" (number (nat 90000)) ≡ true
unfolding can_relay_snapshot_be_submitted is_relay_snapshot_structurally_ready every_record
    record_matches record_handed_off relay_reservation_record relay_reservation_ids
    relay_snapshot_payload_hash first_non_empty_string has_valid_relay_chain_time relay_chain_time
    relay_snapshot_is_expired relay_snapshot_expires_at_unix strict_positive_unix_seconds
    expiry_text either_text attempt_count get get_field items elements truthy text_or_empty text_of
    number_text to_number is_zero safe_nat to_decimal decimal_before decimal_after trim trim_start
    trim_end is_space is_positive_decimal every_char
ready_is_submitted = refl

ready_is_structurally_ready :
    is_relay_snapshot_structurally_ready ready_snapshot
      (some (("a", ready_record) ∷ []))
      "ProofReady"
    ≡ true
unfolding is_relay_snapshot_structurally_ready every_record record_matches record_handed_off
    relay_reservation_record relay_reservation_ids relay_snapshot_payload_hash
    first_non_empty_string relay_snapshot_expires_at_unix strict_positive_unix_seconds expiry_text
    either_text attempt_count get get_field items elements truthy text_or_empty text_of number_text
    to_number is_zero safe_nat to_decimal decimal_before decimal_after trim trim_start trim_end
    is_space is_positive_decimal every_char lookup
ready_is_structurally_ready = refl

ready_is_kept : sanitize_relay_withdraw_snapshot ready_snapshot ≡ some ready_kept
unfolding sanitize_relay_withdraw_snapshot sanitize_reservation_batch sanitize_reservation_record
    batch_records relay_reservation_ids has_complete_relay_reservation_evidence records_complete
    trimmed_ids kept_payload_hash kept_snapshot first_non_empty_string
    relay_snapshot_expires_at_unix strict_positive_unix_seconds expiry_text either_text get
    get_field items elements truthy text_or_empty text_of number_text to_number is_zero safe_nat
    to_decimal decimal_before decimal_after trim trim_start trim_end is_space is_positive_decimal
    every_char
ready_is_kept = refl

can_relay_snapshot_be_submitted_iff_example :
    (can_relay_snapshot_be_submitted ready_snapshot none "ProofReady" (number (nat 90000)) ≡ true)
    ↔ MaySubmit ready_snapshot none "ProofReady" (number (nat 90000))
can_relay_snapshot_be_submitted_iff_example =
    can_relay_snapshot_be_submitted_iff ready_snapshot none "ProofReady" (number (nat 90000))

structurally_ready_not_copied_example :
    can_relay_handoff_payload_be_copied ready_snapshot
      (some (("a", ready_record) ∷ []))
      "ProofReady"
    ≡ false
structurally_ready_not_copied_example =
    structurally_ready_not_copied ready_snapshot (some (("a", ready_record) ∷ [])) "ProofReady"
      ready_is_structurally_ready

sanitize_relay_withdraw_snapshot-IsKept_example : IsKept ready_kept
sanitize_relay_withdraw_snapshot-IsKept_example =
    sanitize_relay_withdraw_snapshot-IsKept ready_snapshot ready_kept ready_is_kept

kept_expiry_example :
    strict_positive_unix_seconds (string "100")
    ≡ strict_positive_unix_seconds (string (expiry_field ready_snapshot))
kept_expiry_example = kept_expiry ready_snapshot ready_kept ready_is_kept

abbrev saved_state : Value
saved_state = object (field "pending" (array (cons ready_snapshot nil)) (field "current" null end))

parse_saved-IsWhole_example :
    ((parse_saved saved_state ≡ record { valid = true; current = none; pending = ready_kept ∷ [] })
      ↔ IsWhole saved_state none (ready_kept ∷ []))
    × (IsWhole saved_state none (ready_kept ∷ []) → All IsKept (ready_kept ∷ []) × Unit {0})
    × ((parse_saved saved_state).valid ≡ false → parse_saved saved_state ≡ invalid_state)
parse_saved-IsWhole_example = parse_saved-IsWhole saved_state none (ready_kept ∷ [])

abbrev nullifier : String
nullifier = "00000000000000000000000000000000000000000000000000000000000000ab"

abbrev withdraw_payload : Value
withdraw_payload = object (text_field "nullifier_hex" nullifier end)

relay_payload_nullifiers_iff_example :
    (relay_payload_nullifiers withdraw_payload ≡ ok (nullifier ∷ []))
    ↔ ((key : String) × (nullifier ∷ [] ≡ key ∷ []) × Locks withdraw_payload key)
relay_payload_nullifiers_iff_example =
    relay_payload_nullifiers_iff withdraw_payload (nullifier ∷ [])

abbrev unspent_answer : List String → Statuses
unspent_answer keys = statuses ((nullifier, boolean false) ∷ [])

abbrev submit_seven : Unit {0} → Result ℕ
submit_seven go = ok 7

submit_relay_after_nullifier_preflight_iff_example :
    (submit_relay_after_nullifier_preflight withdraw_payload
        (some unspent_answer)
        (some submit_seven)
      ≡ ok 7)
    ↔ (Cleared withdraw_payload unspent_answer × (submit_seven tt ≡ ok 7))
submit_relay_after_nullifier_preflight_iff_example =
    submit_relay_after_nullifier_preflight_iff withdraw_payload unspent_answer submit_seven 7

update_reservation_batch_records-ids_example :
    (vs : List Value) × (elements
        (get "reservations" (update_reservation_batch_records ready_batch (ready_record ∷ [])))
      ≡ some vs)
    × (map (get "reservation_id") vs ≡ map string (relay_reservation_ids ready_batch))
unfolding truthy
update_reservation_batch_records-ids_example =
    update_reservation_batch_records-ids ready_batch ready_record [] refl

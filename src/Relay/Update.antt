-- ===== src/Relay/Update.antt =====
-- Fresh records put into a batch, and the one status of a batch.
use clairveil_samples.Js.{
  Value, array, boolean, end, field, get, is_empty, is_text, lookup, number, object, of_list,
  set_own, string, text_or_empty, truthy, undefined,
}
use clairveil_samples.Prelude.{
  List, Option, String, [], find, if◌then◌else◌, map, none, some, some_of, unique, ◌===◌, ◌∷◌,
}
use clairveil_samples.Relay.Sanitize.{
  ReservationRecord, array_or_empty, sanitize_reservation_record,
}
use clairveil_samples.Relay.Snapshot.{relay_reservation_ids}

-- A sanitized record as a value again.
unfoldable pub record_value : ReservationRecord → Value
record_value r = object (
    field "reservation_id" (string r.reservation_id) (
      field "operation_id" (string r.operation_id) (
        field "status" (string r.status) (
          field "payload_hash" (string r.payload_hash) (
            field "submitted_tx_hash" (string r.submitted_tx_hash) (
              field "tx_bytes_hash" (string r.tx_bytes_hash) (
                field "sign_doc_hash" (string r.sign_doc_hash) (
                  field "broadcast_in_flight" (boolean r.broadcast_in_flight)
                    (field "broadcast_attempt_count" (number r.broadcast_attempt_count) end)))))))))

-- `new Map(sanitized.map(record => [record.reservation_id, record])).get(id)`: the last one of that id.
unfoldable pub record_by_id : String → List ReservationRecord → Option ReservationRecord
record_by_id id [] = none
record_by_id id (r ∷ records) =
    let later = record_by_id id records in
    elim later [ some found ↦ some found | none ↦ if r.reservation_id === id then some r else none ]

unfoldable pub updated_record : List ReservationRecord → List Value → String → Value
unfolding record_by_id record_value
updated_record sanitized existing id = elim (record_by_id id sanitized) [
  | some r ↦ record_value r
  | none ↦ elim (find (λ v. is_text id (get "reservation_id" v)) existing) [
    | some v ↦ v
    | none ↦ object (
        field "reservation_id" (string id)
          (field "status" (string "") (field "payload_hash" (string "") end)))
  ]
]

unfoldable pub update_reservation_batch_records : Value → List Value → Value
unfolding updated_record sanitize_reservation_record relay_reservation_ids
update_reservation_batch_records batch [] = batch
update_reservation_batch_records batch (r ∷ records) =
    if truthy batch
    then set_own "reservations"
        (array (
          of_list (
            map
              (updated_record (map sanitize_reservation_record (r ∷ records))
                (array_or_empty (get "reservations" batch)))
              (relay_reservation_ids batch))))
        batch
    else batch

-- Status of a batch: each id's status in the current records, where a store gave them, else in the
-- batch; "mixed" where they differ and "" where one is missing.
abbrev status_of_id : Value → Option (List (String × Value)) → String → String
status_of_id reservation none id = text_or_empty (
    get "status"
      (elim (find (λ v. is_text id (get "reservation_id" v))
        (array_or_empty (get "reservations" reservation))) [ none ↦ undefined | some v ↦ v ]))
status_of_id reservation (some current) id =
    text_or_empty (get "status" (elim (lookup id current) [ none ↦ undefined | some v ↦ v ]))

unfoldable pub relay_reservation_status : Value → Option (List (String × Value)) → String
unfolding relay_reservation_ids lookup
relay_reservation_status reservation current =
    let statuses = map (status_of_id reservation current) (relay_reservation_ids reservation) in
    if some_of is_empty statuses
    then ""
    else elim (unique statuses) [ [] ↦ "" | s ∷ [] ↦ s | s ∷ more ↦ "mixed" ]

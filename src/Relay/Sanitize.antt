-- ===== src/Relay/Sanitize.antt =====
-- What is kept of a reservation and of a snapshot across a restart: an allowlist of fields. A `null`
-- among the records of a batch, on which the source throws, reads as a record with no field.
use Prim.Native.String.{◌++◌ as str_append}
use mathlib.Core.Option
use clairveil_samples.Js.{
  Number, Value, elements, get, is_empty, is_nullish, is_object, is_true, nat, number, string,
  text_or_empty, to_number, trim, truthy, ◌or_nullish◌, ◌or◌,
}
use clairveil_samples.Prelude.{
  Bool, List, Option, String, [], every, false, find, has, if◌then◌else◌, keep, length, map, none,
  not, some, true, unique, ◌&&◌, ◌++◌, ◌===◌, ◌==◌, ◌||◌, ◌∷◌,
}
use clairveil_samples.Relay.Snapshot.{relay_reservation_ids, relay_snapshot_expires_at_unix}

pub record ReservationRecord : Type 0 where
  pub reservation_id : String
  pub operation_id : String
  pub status : String
  pub payload_hash : String
  pub submitted_tx_hash : String
  pub tx_bytes_hash : String
  pub sign_doc_hash : String
  pub broadcast_in_flight : Bool
  pub broadcast_attempt_count : Number

pub record ReservationBatch : Type 0 where
  pub operation_id : String
  pub reservation_ids : List String
  pub reservations : List ReservationRecord

pub record RelaySnapshot : Type 0 where
  pub id : String
  pub reservation : ReservationBatch
  pub expires_at_unix : String
  pub payload_hash : String
  pub submitted : Bool
  pub handed_off : Bool
  pub relay_hash : String
  pub relay_height : String

-- `String(v.snake || v.camel || "")`
unfoldable pub either_text : String → String → Value → String
either_text snake camel v = text_or_empty (get snake v or get camel v)

unfoldable pub sanitize_reservation_record : Value → ReservationRecord
sanitize_reservation_record v = record {
  reservation_id = text_or_empty (get "reservation_id" v);
  operation_id = either_text "operation_id" "operationId" v;
  status = text_or_empty (get "status" v);
  payload_hash = either_text "payload_hash" "payloadHash" v;
  submitted_tx_hash = either_text "submitted_tx_hash" "submittedTxHash" v;
  tx_bytes_hash = either_text "tx_bytes_hash" "txBytesHash" v;
  sign_doc_hash = either_text "sign_doc_hash" "signDocHash" v;
  broadcast_in_flight =
      is_true (get "broadcast_in_flight" v) || is_true (get "broadcastInFlight" v);
  broadcast_attempt_count = to_number (
      get "broadcast_attempt_count" v
      or_nullish (get "broadcastAttemptCount" v or_nullish number (nat 0)));
}

-- The records of `batch.reservations`: `none` where it is present and no array.
unfoldable pub batch_records : Value → Option (List Value)
batch_records batch = elim (elements (get "reservations" batch)) [
  | some records ↦ some records
  | none ↦ if is_nullish (get "reservations" batch) then some [] else none
]

unfoldable pub sanitize_reservation_batch : Value → Option ReservationBatch
sanitize_reservation_batch batch = elim (batch_records batch) [
  | none ↦ none
  | some records ↦
      if truthy batch
      then some (record {
        operation_id = either_text "operation_id" "operationId" batch;
        reservation_ids = relay_reservation_ids batch;
        reservations =
            keep (λ r. not (is_empty r.reservation_id)) (map sanitize_reservation_record records);
      })
      else none
]

-- `relayReservationIDs` of a sanitized batch, trimmed.
unfoldable pub trimmed_ids : ReservationBatch → List String
trimmed_ids batch = map trim (keep (λ id. not (is_empty id)) batch.reservation_ids)

-- The loop of `records.every`: `seen` holds the ids met before.
unfoldable pub records_complete : String → List String → List String → List ReservationRecord → Bool
records_complete operation_id expected seen [] = true
records_complete operation_id expected seen (r ∷ records) =
    let id = trim r.reservation_id in
    not (is_empty id)
    && has id expected
    && not (has id seen)
    && trim r.operation_id === operation_id
    && not (is_empty (trim r.status))
    && records_complete operation_id expected (seen ++ id ∷ []) records

unfoldable pub has_complete_relay_reservation_evidence : ReservationBatch → Bool
has_complete_relay_reservation_evidence batch =
    let operation_id = trim batch.operation_id in
    let ids = trimmed_ids batch in
    not (is_empty operation_id)
    && not (length ids == 0)
    && length (unique ids) == length ids
    && every (λ id. not (is_empty id)) ids
    && length batch.reservations == length ids
    && records_complete operation_id ids [] batch.reservations

abbrev pub first_payload_hash : ReservationBatch → String
first_payload_hash batch = elim (find (λ r. not (is_empty r.payload_hash)) batch.reservations) [
  | none ↦ ""
  | some r ↦ r.payload_hash
]

abbrev pub or_text : String → String → String
or_text s t = if is_empty s then t else s

abbrev pub join_colon : List String → String
join_colon [] = ""
join_colon (id ∷ []) = id
join_colon (id ∷ ids) = str_append id (str_append ":" (join_colon ids))

unfoldable pub kept_payload_hash : Value → ReservationBatch → String
kept_payload_hash snapshot batch = text_or_empty (
    get "payloadHash" snapshot
    or get "payload_hash" snapshot
    or get "payload_hash" (get "payload" snapshot)
    or get "payloadHash" (get "payload" snapshot)
    or string (first_payload_hash batch))

unfoldable pub kept_snapshot : Value → ReservationBatch → RelaySnapshot
kept_snapshot snapshot batch = record {
  id =
      or_text (kept_payload_hash snapshot batch)
        (join_colon (keep (λ id. not (is_empty id)) batch.reservation_ids));
  reservation = batch;
  expires_at_unix = relay_snapshot_expires_at_unix snapshot;
  payload_hash = kept_payload_hash snapshot batch;
  submitted = truthy (get "submitted" snapshot);
  handed_off = truthy (get "handedOff" snapshot or get "handed_off" snapshot);
  relay_hash = either_text "relayHash" "relay_hash" snapshot;
  relay_height = either_text "relayHeight" "relay_height" snapshot;
}

unfoldable pub sanitize_relay_withdraw_snapshot : Value → Option RelaySnapshot
sanitize_relay_withdraw_snapshot snapshot =
    elim (sanitize_reservation_batch (get "reservation" snapshot)) [
      | none ↦ none
      | some batch ↦
          if truthy snapshot
            && has_complete_relay_reservation_evidence batch
            && not (
                is_empty (kept_payload_hash snapshot batch)
                && length (keep (λ id. not (is_empty id)) batch.reservation_ids) == 0)
          then some (kept_snapshot snapshot batch)
          else none
    ]

pub record PersistedState : Type 0 where
  pub valid : Bool
  pub current : Option RelaySnapshot
  pub pending : List RelaySnapshot

abbrev pub invalid_state : PersistedState
invalid_state = record { valid = false; current = none; pending = [] }

-- The loop over `saved.pending`; `none` where one of them is refused.
unfoldable pub sanitize_all : List Value → Option (List RelaySnapshot)
sanitize_all [] = some []
sanitize_all (snapshot ∷ snapshots) =
    let rest = sanitize_all snapshots in
    elim (sanitize_relay_withdraw_snapshot snapshot) [
      | none ↦ none
      | some kept ↦ Option.map (◌∷◌ kept) rest
    ]

abbrev pub with_pending : Value → List RelaySnapshot → PersistedState
with_pending current pending =
    if truthy current
    then (elim (sanitize_relay_withdraw_snapshot current) [
      | none ↦ invalid_state
      | some kept ↦ record { valid = true; current = some kept; pending = pending }
    ])
    else record { valid = true; current = none; pending = pending }

abbrev pub is_array : Value → Bool
is_array v = elim (elements v) [ none ↦ false | some vs ↦ true ]

-- `v || []`, of an array or a nullish value.
abbrev pub array_or_empty : Value → List Value
array_or_empty v = elim (elements v) [ none ↦ [] | some vs ↦ vs ]

-- The state that `saved`, the parsed text or the object given, holds.
unfoldable pub parse_saved : Value → PersistedState
parse_saved saved =
    let pending = get "pending" saved in
    if not (is_object saved) || not (is_nullish pending) && not (is_array pending)
    then invalid_state
    else (elim (sanitize_all (array_or_empty pending)) [
      | none ↦ invalid_state
      | some kept ↦ with_pending (get "current" saved) kept
    ])

-- `JSON.parse` is given; `none` where it throws.
unfoldable pub parse_persisted_relay_withdraw_state :
    (String → Option Value) → Value → PersistedState
parse_persisted_relay_withdraw_state json_parse (string raw) =
    if is_empty raw
    then record { valid = true; current = none; pending = [] }
    else elim (json_parse raw) [ none ↦ invalid_state | some saved ↦ parse_saved saved ]
parse_persisted_relay_withdraw_state json_parse raw =
    if is_nullish raw
    then record { valid = true; current = none; pending = [] }
    else parse_saved raw

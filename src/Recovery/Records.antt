-- ===== src/Recovery/Records.antt =====
-- public/reservation-recovery.js: what the records of an operation say.
use clairveil_samples.Js.{
  Value, end, get, is_empty, is_false, is_object_like, is_positive, is_true, nat, number, object,
  string, text_of, text_or_empty, to_number, trim, ◌or◌,
}
use clairveil_samples.Prelude.{
  Bool, List, Option, String, false, if◌then◌else◌, keep, ltb, map, none, not, some, unique, ℕ,
  ◌||◌,
}

-- reservationMetadata
unfoldable pub reservation_metadata : Value → Value
reservation_metadata v =
    let metadata = get "metadata" v in if is_object_like metadata then metadata else object end

-- String(v.first || v.second || "")
abbrev pub first_text : String → String → Value → String
first_text first second v = text_of (get first v or get second v or string "")

-- reservationOperationKey
unfoldable pub reservation_operation_key : Value → String
reservation_operation_key v = text_of (
    get "operation_id" v
    or get "operationId" v
    or get "reservation_id" v
    or get "reservationId" v
    or string "")

abbrev pub status_of : Value → String
status_of v = text_or_empty (get "status" v)

abbrev pub kind_of : Value → String
kind_of v = text_of (get "kind" v or string "unknown")

abbrev pub has_text : String → Value → Bool
has_text name v = not (is_empty (trim (text_or_empty (get name v))))

abbrev pub has_first_text : String → String → Value → Bool
has_first_text first second v = not (is_empty (trim (first_text first second v)))

-- hasSignDocIdentity, of one record
unfoldable pub has_sign_doc_identity : Value → Bool
has_sign_doc_identity v = has_first_text "sign_doc_hash" "signDocHash" v

-- hasQueryableTransactionIdentity, of one record
unfoldable pub has_transaction_identity : Value → Bool
has_transaction_identity v =
    has_first_text "submitted_tx_hash" "submittedTxHash" v
    || has_first_text "tx_bytes_hash" "txBytesHash" v

-- broadcastAttempted, of one record
unfoldable pub broadcast_attempted_of : Value → Bool
broadcast_attempted_of v =
    is_true (get "broadcast_in_flight" v)
    || is_positive (to_number (get "broadcast_attempt_count" v or number (nat 0)))
    || is_false (get "no_broadcast_attempt" (reservation_metadata v))
    || has_text "submitted_tx_hash" v
    || has_text "tx_bytes_hash" v

-- relayHandedOff, of one record
unfoldable pub relay_handed_off_of : Value → Bool
relay_handed_off_of v =
    is_true (get "relay_handed_off" (reservation_metadata v))
    || is_true (get "relayHandedOff" (reservation_metadata v))

-- The end of the lease, and whether it lies ahead. `parse_date` is Date.parse, in milliseconds; `none`
-- stands for NaN and for times before 1970, which lie ahead of no `now`.
unfoldable pub lease_is_live : (String → Option ℕ) → ℕ → Value → Bool
lease_is_live parse_date now v = elim (parse_date (text_or_empty (get "lease_until" v))) [
  | none ↦ false
  | some until ↦ ltb now until
]

abbrev pub given : List String → List String
given texts = keep (λ s. not (is_empty s)) texts

-- `[...new Set(texts.map(...).filter(Boolean))]`
abbrev pub named : String → List Value → List String
named name records = unique (given (map (λ v. text_or_empty (get name v)) records))

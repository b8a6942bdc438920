-- ===== src/Recovery/Failed.antt =====
-- public/reservation-reconciliation.js: reservations whose transaction failed or was rejected.
use clairveil_samples.Js.{
  Number, Value, boolean, fraction, get, infinity, is_empty, is_true, message, nan, nat, neg,
  number, set_own, string, text_or_empty, to_number, ◌or◌,
}
use clairveil_samples.Prelude.{
  Bool, List, Option, Result, String, [], every, false, if◌then◌else◌, leb, length, ltb, map, none,
  not, ok, require, some, throw, true, unique, ℕ, ◌&&◌, ◌===◌, ◌==◌, ◌>>=◌, ◌>>◌, ◌||◌, ◌∷◌,
}
use clairveil_samples.Recovery.Records.{given}
use clairveil_samples.Recovery.Rejected.{safe_height}
use clairveil_samples.Status.Cosmos.{cosmos_reservation_transaction_hash, normalized_tx_hash}

-- commonReservationStatus
unfoldable pub common_reservation_status : List Value → Result String
common_reservation_status records =
    elim (unique (map (λ v. text_or_empty (get "status" v)) records)) [
      | [] ↦ throw "failed transaction reservations have mixed statuses"
      | s ∷ [] ↦ ok s
      | s ∷ t ∷ ts ↦ throw "failed transaction reservations have mixed statuses"
    ]

-- What the manager of the reservations is asked to mark as failed. Its lease token is left out where it is
-- empty, and its metadata is the caller's with the evidence put over it.
pub record BroadcastFailure : Type 0 where
  pub reservation_ids : List String
  pub tx_hash_checked : Value
  pub checked_height : ℕ
  pub lease_token : String
  pub evidence : Value

abbrev pub failed_hash : Bool → Value → String
failed_hash cosmos v =
    if cosmos
    then cosmos_reservation_transaction_hash v
    else normalized_tx_hash (get "submitted_tx_hash" v)

-- x >= 1
unfoldable pub at_least_one : Number → Bool
at_least_one (nat n) = leb 1 n
at_least_one (neg n) = false
at_least_one (fraction minus n text) = not minus && leb 1 n
at_least_one (infinity minus) = not minus
at_least_one nan = false

abbrev pub durable_attempt : Value → Bool
durable_attempt v =
    is_true (get "broadcast_in_flight" v)
    && at_least_one (to_number (get "broadcast_attempt_count" v or number (nat 0)))

abbrev pub one_token : List String → Result String
one_token (token ∷ []) =
    if is_empty token
    then throw "ProofReady failed transaction recovery requires one operation-wide lease token"
    else ok token
one_token _ = throw "ProofReady failed transaction recovery requires one operation-wide lease token"

-- The lease token that is handed on, by the common status.
unfoldable pub failure_token : String → List Value → Result String
failure_token status records =
    if status === "ProofReady"
    then (require (every durable_attempt records)
          "ProofReady failed transaction recovery requires a durable broadcast attempt"
        >> one_token (unique (map (λ v. text_or_empty (get "lease_token" v)) records)))
    else if status === "Submitted" || status === "Unknown"
    then ok ""
    else throw (message ("unsupported failed transaction reservation status " ∷ status ∷ []))

abbrev failure_evidence : Value → Value → ℕ → Value
failure_evidence metadata tx_hash height = set_own "tx_hash_checked" tx_hash (
    set_own "checked_height" (number (nat height)) (
      set_own "tx_absent_or_failed_confirmed" (boolean true) (
        set_own "nullifier_unspent_confirmed" (boolean true)
          (set_own "reconcile_reason" (string "checked_transaction_failed") metadata))))

-- The manager of the reservations, as far as it can mark a failure.
pub data Manager : Type 0 where
  missing cannot_mark can_mark : Manager

abbrev pub marks : Manager → Bool
marks can_mark = true
marks _ = false

abbrev pub is_missing : Manager → Bool
is_missing missing = true
is_missing _ = false

abbrev pub record_ids : List Value → List String
record_ids records = given (map (λ v. text_or_empty (get "reservation_id" v)) records)

abbrev pub has_hash : Bool → String → List Value → Bool
has_hash cosmos hash records =
    not (is_empty hash) && every (λ v. failed_hash cosmos v === hash) records

-- The height, or the error.
abbrev pub height_or_throw : Option ℕ → Result ℕ
height_or_throw none = throw "failed transaction recovery requires an authoritative checked height"
height_or_throw (some height) = ok height

abbrev pub failure : List Value → Value → ℕ → String → Value → BroadcastFailure
failure records tx_hash height token metadata = record {
  reservation_ids = record_ids records;
  tx_hash_checked = tx_hash;
  checked_height = height;
  lease_token = token;
  evidence = failure_evidence metadata tx_hash height;
}

-- replanExplicitlyFailedReservations, up to the call of manager.markBroadcastFailed
unfoldable pub replan_explicitly_failed_reservations :
    Manager → List Value → Value → Value → Value → Bool → Result BroadcastFailure
replan_explicitly_failed_reservations manager records tx_hash checked_height metadata cosmos =
    require (not (is_missing manager) && ltb 0 (length records))
      "failed transaction reservation recovery requires records"
    >> (require (has_hash cosmos (normalized_tx_hash tx_hash) records)
          "failed transaction hash does not match every reservation"
        >> (height_or_throw (safe_height checked_height) >>= λ height.
            common_reservation_status records >>= λ status.
            require (length (record_ids records) == length records)
              "failed transaction reservation id is missing"
            >> (failure_token status records >>= λ token.
                require (marks manager) (
                  message (
                    "ClairveilJS does not provide authoritative broadcast-failure recovery; "
                    ∷ "reservations were left unchanged for manual review and this transaction must not be retried"
                    ∷ []))
                >> ok (failure records tx_hash height token metadata))))

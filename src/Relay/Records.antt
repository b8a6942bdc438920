-- ===== src/Relay/Records.antt =====
-- The part of the readiness tests that is about the records of a reservation.
use clairveil_samples.Js.{Value, get, is_empty, is_true, is_zero, text_or_empty, truthy}
use clairveil_samples.Prelude.{
  All, All-map, AllDistinct, All→every, Bool, List, Option, String, [], arith, eq_iff, every,
  every→All, false, length, not, refl, some, true, unique, ℕ, ◌&&◌, ◌/◌, ◌<◌, ◌==◌, ◌↔◌, ◌∷◌, ◌≡◌,
  ◌≢◌,
}
use clairveil_samples.Prelude.Sets.{unique_iff}
use clairveil_samples.Relay.Readiness.{
  attempt_count, every_record, record_handed_off, record_matches, relay_hash_of,
  relay_reservation_record, relay_snapshot_payload_hash,
}
use clairveil_samples.Relay.Sanitize.{either_text}
use clairveil_samples.Relay.Snapshot.{relay_chain_time, relay_expiry, relay_reservation_ids}

-- The record stands ready: of this state, operation and payload, no attempt to broadcast it has begun
-- and it was not handed off.
pub record RecordReady (proof_ready operation_id payload_hash : String) (v : Value) : Type 0 where
  pub present : truthy v ≡ true
  pub status : text_or_empty (get "status" v) ≡ proof_ready
  pub operation : either_text "operation_id" "operationId" v ≡ operation_id
  pub payload : either_text "payload_hash" "payloadHash" v ≡ payload_hash
  pub not_in_flight : is_true (get "broadcast_in_flight" v) ≡ false
  pub not_in_flight_alias : is_true (get "broadcastInFlight" v) ≡ false
  pub no_attempt : is_zero (attempt_count v) ≡ true
  pub not_handed_off : record_handed_off v ≡ false

pub RecordReady-iff :
    (proof_ready op hash : String) (v : Value)
    → ((record_matches proof_ready op hash v && not (record_handed_off v)) ≡ true)
      ↔ RecordReady proof_ready op hash v
unfolding record_matches
RecordReady-iff proof_ready op hash v = (
  λ h. ground (
    arith,
    h,
    eq_iff (text_or_empty (get "status" v)) proof_ready,
    eq_iff (either_text "operation_id" "operationId" v) op,
    eq_iff (either_text "payload_hash" "payloadHash" v) hash,
  ),
  λ h. ground (
    arith,
    h,
    eq_iff (text_or_empty (get "status" v)) proof_ready,
    eq_iff (either_text "operation_id" "operationId" v) op,
    eq_iff (either_text "payload_hash" "payloadHash" v) hash,
  ),
)

pub is_empty_iff : (s : String) → (is_empty s ≡ true) ↔ (s ≡ "")
is_empty_iff String.[] = (λ h. refl, λ h. refl)
is_empty_iff (String.◌∷◌ c s) = (λ h. cc, λ h. cc)

-- The list holds an element.
pub length_zero_iff : (l : List String) → ((length l == 0) ≡ false) ↔ (l ≢ [])
length_zero_iff [] = (λ h. cc, λ h. absurd (h refl))
length_zero_iff (x ∷ l) = (λ h e. cc, λ h. ground arith)

pub is_empty-eq-false_iff : (s : String) → (is_empty s ≡ false) ↔ (s ≢ "")
is_empty-eq-false_iff String.[] = (λ h. cc, λ h. absurd (h refl))
is_empty-eq-false_iff (String.◌∷◌ c s) = (λ h e. cc, λ h. refl)

pub five_iff :
    (a b c d e : Bool)
    → ((not a && not b && not c && d && e) ≡ true)
      ↔ ((a ≡ false) × (b ≡ false) × (c ≡ false) × (d ≡ true) × (e ≡ true))
five_iff a b c d e = (λ h. ground arith, λ h. ground arith)

module _ (test : String → String → Value → Bool) (P : String → String → Value → Type 0) where
  -- The shared part of the tests, where `test` decides `P`.
  pub record EveryRecord (snapshot : Value) (current : Option (List (String × Value)))
      : Type 0 where
    pub named : relay_snapshot_payload_hash snapshot ≢ ""
    pub operation : either_text "operation_id" "operationId" (get "reservation" snapshot) ≢ ""
    pub some_id : relay_reservation_ids (get "reservation" snapshot) ≢ []
    pub distinct : AllDistinct (relay_reservation_ids (get "reservation" snapshot))
    pub each :
        All
          (λ id.
            P
              (either_text "operation_id" "operationId" (get "reservation" snapshot))
              (relay_snapshot_payload_hash snapshot)
              (relay_reservation_record (get "reservation" snapshot) id current))
          (relay_reservation_ids (get "reservation" snapshot))

  pub every_record_iff :
      ((op hash : String) (v : Value) → (test op hash v ≡ true) ↔ P op hash v)
      → (snapshot : Value) (current : Option (List (String × Value)))
      → (every_record test snapshot current ≡ true) ↔ EveryRecord snapshot current
  unfolding every_record
  every_record_iff decides snapshot current =
      let reservation = get "reservation" snapshot in
      let ids = relay_reservation_ids reservation in
      let op = either_text "operation_id" "operationId" reservation in
      let hash = relay_snapshot_payload_hash snapshot in
      let holds = λ (id : String). test op hash (relay_reservation_record reservation id current) in
      let parts =
        five_iff (is_empty hash) (is_empty op) (length ids == 0) (length (unique ids) == length ids)
          (every holds ids) in
      (
        λ h.
            let (named, operation, some_id, distinct, each) = parts.0 h in
            record {
              named = (is_empty-eq-false_iff hash).0 named;
              operation = (is_empty-eq-false_iff op).0 operation;
              some_id = (length_zero_iff ids).0 some_id;
              distinct = (unique_iff ids).0 distinct;
              each = All-map _ _ ids (λ id. (decides op hash _).0) (every→All holds ids each);
            },
        λ e. parts.1 (
          (is_empty-eq-false_iff hash).1 e.named,
          (is_empty-eq-false_iff op).1 e.operation,
          (length_zero_iff ids).1 e.some_id,
          (unique_iff ids).1 e.distinct,
          All→every holds ids (All-map _ _ ids (λ id. (decides op hash _).1) e.each),
        ),
      )

-- A snapshot that may be handed to a relayer at a chain time: its payload stands, nothing says that it
-- was submitted or handed off, its expiry lies after that time, and its reservations are distinct, at
-- least one, and all ready for this operation and payload.
pub record MaySubmit (snapshot : Value) (current : Option (List (String × Value)))
    (proof_ready : String) (now : Value) : Type 0 where
  pub payload : truthy (get "payload" snapshot) ≡ true
  pub not_submitted : truthy (get "submitted" snapshot) ≡ false
  pub not_handed_off : truthy (get "handedOff" snapshot) ≡ false
  pub not_handed_off_alias : truthy (get "handed_off" snapshot) ≡ false
  pub no_relay_hash : relay_hash_of snapshot ≡ ""
  pub before_expiry :
      (seconds : ℕ) × (ms : ℕ) × (relay_expiry snapshot ≡ some seconds)
      × (relay_chain_time now ≡ some ms)
      × (ms / 1000 < seconds)
  pub records :
      EveryRecord
        (λ op hash v. record_matches proof_ready op hash v && not (record_handed_off v))
        (RecordReady proof_ready)
        snapshot
        current

-- ===== src/Relay/Submission.antt =====
-- When a snapshot may be submitted: an independent description, and what excludes what.
use clairveil_samples.Js.{Value, get, is_empty, nat, number, truthy}
use clairveil_samples.Prelude.{
  Bool, List, Option, String, [], arith, every, false, length, none, not, refl, some, sym, true,
  unique, ℕ, ◌&&◌, ◌/◌, ◌<◌, ◌==◌, ◌↔◌, ◌∙◌, ◌∷◌, ◌≡◌, ◌≤◌,
}
use clairveil_samples.Relay.Readiness.{
  can_relay_handoff_payload_be_copied, can_relay_snapshot_be_submitted, every_record,
  is_relay_snapshot_structurally_ready, record_handed_off, record_has_tx_identity, record_matches,
  relay_hash_of, relay_reservation_record, relay_snapshot_payload_hash,
}
use clairveil_samples.Relay.Records.{
  MaySubmit, RecordReady, every_record_iff, five_iff, is_empty_iff, RecordReady-iff,
}
use clairveil_samples.Relay.Sanitize.{either_text}
use clairveil_samples.Relay.Snapshot.{
  expired_at, has_valid_relay_chain_time, relay_chain_time, relay_expiry, relay_reservation_ids,
  relay_snapshot_is_expired,
}

gate_iff :
    (a b c d e x r v t : Bool)
    → (((a && not b && not c && not d && e && x && r) && v && not t) ≡ true) ↔ (
        (a ≡ true)
        × (b ≡ false)
        × (c ≡ false)
        × (d ≡ false)
        × (e ≡ true)
        × (r ≡ true)
        × ((x && (v && not t)) ≡ true))
gate_iff a b c d e x r v t = (λ h. ground arith, λ h. ground arith)

before_expiry_iff :
    (expiry time : Option ℕ)
    → (((elim expiry [ none ↦ false | some seconds ↦ true ])
          && ((elim time [ none ↦ false | some ms ↦ true ]) && not (expired_at expiry time)))
        ≡ true)
      ↔ ((seconds : ℕ) × (ms : ℕ) × (expiry ≡ some seconds)
          × (time ≡ some ms)
          × (ms / 1000 < seconds))
before_expiry_iff none time = (λ h. cc, λ h. cc)
before_expiry_iff (some seconds) none = (λ h. cc, λ h. cc)
before_expiry_iff (some seconds) (some ms) =
    (λ h. (seconds, ms, refl, refl, ground arith), λ (s, m, p, q, lt). ground arith)

-- A snapshot passes the test before a submission exactly when it may be submitted: in particular its
-- expiry is later than the chain time in whole seconds, no record has an attempt to broadcast or was
-- handed off, and the reservation ids are distinct and at least one.
pub can_relay_snapshot_be_submitted_iff :
    (snapshot : Value) (current : Option (List (String × Value))) (proof_ready : String)
    (now : Value)
    → (can_relay_snapshot_be_submitted snapshot current proof_ready now ≡ true)
      ↔ MaySubmit snapshot current proof_ready now
unfolding can_relay_snapshot_be_submitted is_relay_snapshot_structurally_ready
    has_valid_relay_chain_time relay_snapshot_is_expired
can_relay_snapshot_be_submitted_iff snapshot current proof_ready now =
    let expiry = relay_expiry snapshot in
    let time = relay_chain_time now in
    let hash = relay_hash_of snapshot in
    let test = λ (op : String) (hash : String) (v : Value).
      record_matches proof_ready op hash v && not (record_handed_off v) in
    let all =
      every_record_iff test (RecordReady proof_ready) (RecordReady-iff proof_ready) snapshot
        current in
    let parts =
      gate_iff (truthy (get "payload" snapshot)) (truthy (get "submitted" snapshot))
        (truthy (get "handedOff" snapshot)) (truthy (get "handed_off" snapshot)) (is_empty hash)
        (elim expiry [ none ↦ false | some seconds ↦ true ]) (every_record test snapshot current)
        (elim time [ none ↦ false | some ms ↦ true ]) (expired_at expiry time) in
    (
      λ h.
          let (payload, submitted, handed, alias, empty, r, timely) = parts.0 h in
          record {
            payload = payload;
            not_submitted = submitted;
            not_handed_off = handed;
            not_handed_off_alias = alias;
            no_relay_hash = (is_empty_iff hash).0 empty;
            before_expiry = (before_expiry_iff expiry time).0 timely;
            records = all.0 r;
          },
      λ m. parts.1 (
        m.payload,
        m.not_submitted,
        m.not_handed_off,
        m.not_handed_off_alias,
        (is_empty_iff hash).1 m.no_relay_hash,
        all.1 m.records,
        (before_expiry_iff expiry time).1 m.before_expiry,
      ),
    )

-- A snapshot that may be submitted at a chain time could be submitted at every earlier valid one.
pub can_relay_snapshot_be_submitted_earlier :
    (snapshot : Value) (current : Option (List (String × Value))) (proof_ready : String)
    (later : Value) (ms early : ℕ)
    → relay_chain_time later ≡ some ms
    → relay_chain_time (number (nat early)) ≡ some early
    → early ≤ ms
    → can_relay_snapshot_be_submitted snapshot current proof_ready later ≡ true
    → can_relay_snapshot_be_submitted snapshot current proof_ready (number (nat early)) ≡ true
can_relay_snapshot_be_submitted_earlier snapshot current proof_ready later ms early p q le h =
    let m = (can_relay_snapshot_be_submitted_iff snapshot current proof_ready later).0 h in
    let (seconds, ms', e, f, lt) = m.before_expiry in
    (can_relay_snapshot_be_submitted_iff snapshot current proof_ready (number (nat early))).1
      (record {
        payload = m.payload;
        not_submitted = m.not_submitted;
        not_handed_off = m.not_handed_off;
        not_handed_off_alias = m.not_handed_off_alias;
        no_relay_hash = m.no_relay_hash;
        before_expiry = (seconds, early, e, q, sooner seconds ms' lt (sym p ∙ f));
        records = m.records;
      })
  where
    sooner : (seconds ms' : ℕ) → ms' / 1000 < seconds → some ms ≡ some ms' → early / 1000 < seconds
    sooner seconds ms' lt same = ground arith

every_clash :
    (f g : String → Bool) (ids : List String)
    → ((id : String) → f id ≡ true → g id ≡ false)
    → (length ids == 0) ≡ false
    → every f ids ≡ true
    → every g ids ≡ false
every_clash f g [] clash some_id h = cc
every_clash f g (id ∷ ids) clash some_id h = ground (arith, clash id)

every_record_clash :
    (f g : String → String → Value → Bool)
    → ((op hash : String) (v : Value) → f op hash v ≡ true → g op hash v ≡ false)
    → (snapshot : Value) (current : Option (List (String × Value)))
    → every_record f snapshot current ≡ true
    → every_record g snapshot current ≡ false
unfolding every_record
every_record_clash f g clash snapshot current h =
    let reservation = get "reservation" snapshot in
    let ids = relay_reservation_ids reservation in
    let op = either_text "operation_id" "operationId" reservation in
    let hash = relay_snapshot_payload_hash snapshot in
    let fs = λ (id : String). f op hash (relay_reservation_record reservation id current) in
    let gs = λ (id : String). g op hash (relay_reservation_record reservation id current) in
    let parts =
      (five_iff (is_empty hash) (is_empty op) (length ids == 0) (length (unique ids) == length ids)
          (every fs ids)).0
        h in
    let none_copied = every_clash fs gs ids (λ id. clash op hash _) parts.2 parts.4 in
    rw (parts.0, parts.1, parts.2, parts.3) none_copied

ready_tests_clash :
    (proof_ready op hash : String) (v : Value)
    → (record_matches proof_ready op hash v && not (record_handed_off v)) ≡ true
    → (record_matches proof_ready op hash v
        && record_handed_off v
        && not (record_has_tx_identity v))
      ≡ false
ready_tests_clash proof_ready op hash v h = ground arith

ready_records :
    (snapshot : Value) (current : Option (List (String × Value))) (proof_ready : String)
    → is_relay_snapshot_structurally_ready snapshot current proof_ready ≡ true
    → every_record
        (λ op hash v. record_matches proof_ready op hash v && not (record_handed_off v))
        snapshot
        current
      ≡ true
unfolding is_relay_snapshot_structurally_ready
ready_records snapshot current proof_ready h = ground arith

and_false : (a b c d e : Bool) → e ≡ false → (a && b && c && d && e) ≡ false
and_false a b c d e h = ground arith

-- No snapshot with the same records is both ready to be handed to a relayer and open to a second copy
-- of its payload.
pub structurally_ready_not_copied :
    (snapshot : Value) (current : Option (List (String × Value))) (proof_ready : String)
    → is_relay_snapshot_structurally_ready snapshot current proof_ready ≡ true
    → can_relay_handoff_payload_be_copied snapshot current proof_ready ≡ false
unfolding can_relay_handoff_payload_be_copied
structurally_ready_not_copied snapshot none proof_ready h = refl
structurally_ready_not_copied snapshot (some current) proof_ready h =
    and_false (truthy (get "payload" snapshot)) (not (truthy (get "submitted" snapshot)))
      (is_empty (relay_hash_of snapshot))
      (elim (relay_expiry snapshot) [ none ↦ false | some seconds ↦ true ]) _
      (every_record_clash _ _ (ready_tests_clash proof_ready) snapshot (some current)
        (ready_records snapshot (some current) proof_ready h))

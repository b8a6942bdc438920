-- ===== src/Relay/Evidence.antt =====
-- What a sanitized snapshot always holds: one complete record for each of its reservations.
use Prim.Native.String.{◌++◌ as str_append}
use text.Mathlib.TextLemmas.{cons-append}
use clairveil_samples.Js.{Value, get, is_empty, size, trim, truthy}
use clairveil_samples.Prelude.{
  ==_iff, All, AllDistinct, Bool, Bool-cases, List, Option-cases, String, [], arith, eq_iff,
  eq_refl, every, false, has, if◌then◌else◌, inl, inr, keep, length, length-map, map, none, not,
  refl, some, subst, true, unique, ◌&&◌, ◌++◌, ◌===◌, ◌==◌, ◌∷◌, ◌≡◌, ◌≢◌,
}
use clairveil_samples.Prelude.Sets.{IsSubset, IsSubset-converse, has-append, unique_iff}
use clairveil_samples.Relay.Records.{is_empty-eq-false_iff, length_zero_iff}
use clairveil_samples.Relay.Sanitize.{
  RelaySnapshot, ReservationBatch, ReservationRecord, has_complete_relay_reservation_evidence,
  join_colon, kept_payload_hash, kept_snapshot, or_text, records_complete,
  sanitize_relay_withdraw_snapshot, sanitize_reservation_batch, trimmed_ids,
}
use clairveil_samples.Js.{Value, get, is_empty, size, trim, truthy}
use clairveil_samples.Prelude.{
  ==_iff, All, AllDistinct, Bool, Bool-cases, List, Option-cases, String, [], arith, eq_iff,
  eq_refl, every, false, has, if◌then◌else◌, inl, inr, keep, length, length-map, map, none, not,
  refl, some, subst, true, unique, ◌&&◌, ◌++◌, ◌===◌, ◌==◌, ◌∷◌, ◌≡◌, ◌≢◌,
}
use clairveil_samples.Prelude.Sets.{IsSubset, IsSubset-converse, has-append, unique_iff}
use clairveil_samples.Relay.Records.{is_empty-eq-false_iff, length_zero_iff}
use clairveil_samples.Relay.Sanitize.{
  RelaySnapshot, ReservationBatch, ReservationRecord, has_complete_relay_reservation_evidence,
  join_colon, kept_payload_hash, kept_snapshot, or_text, records_complete,
  sanitize_relay_withdraw_snapshot, sanitize_reservation_batch, trimmed_ids,
}

abbrev pub record_key : ReservationRecord → String
record_key r = trim r.reservation_id

-- The record belongs to the operation and has a state.
abbrev pub IsRecordOf : String → ReservationRecord → Type 0
IsRecordOf operation_id r = (trim r.operation_id ≡ operation_id) × (trim r.status ≢ "")

-- Evidence for every reservation of an operation: an operation, at least one id, no id twice, and
-- exactly one record for each id, of this operation and with a state.
pub record IsComplete (batch : ReservationBatch) : Type 0 where
  pub operation : trim batch.operation_id ≢ ""
  pub some_id : trimmed_ids batch ≢ []
  pub distinct_ids : AllDistinct (trimmed_ids batch)
  pub distinct_records : AllDistinct (map record_key batch.reservations)
  pub every_id : IsSubset (trimmed_ids batch) (map record_key batch.reservations)
  pub no_other : IsSubset (map record_key batch.reservations) (trimmed_ids batch)
  pub each : All (IsRecordOf (trim batch.operation_id)) batch.reservations

record Walked (operation_id : String) (expected seen : List String) (rs : List ReservationRecord)
    : Type 0 where
  inside : IsSubset (map record_key rs) expected
  distinct : AllDistinct (map record_key rs)
  fresh : (k : String) → has k seen ≡ true → has k (map record_key rs) ≡ false
  each : All (IsRecordOf operation_id) rs

records_complete-Walked :
    (op : String) (expected seen : List String) (rs : List ReservationRecord)
    → records_complete op expected seen rs ≡ true
    → Walked op expected seen rs
unfolding records_complete
records_complete-Walked op expected seen [] h = record {
  inside = λ k e. cc;
  distinct = tt;
  fresh = λ k e. refl;
  each = tt;
}
records_complete-Walked op expected seen (r ∷ rs) h =
    let id = record_key r in
    let (expected_id, new, op_eq, status, rest) = parts in
    let w = records_complete-Walked op expected (seen ++ id ∷ []) rs rest in
    record {
      inside = λ k e. elim (Bool-cases (id === k)) [
        | inl same ↦ ground (arith, eq_iff id k)
        | inr other ↦ w.inside k (ground arith)
      ];
      distinct =
          (w.fresh id (ground (arith, has-append id seen (id ∷ []), eq_refl id)), w.distinct);
      fresh = λ k e. ground (arith, w.fresh k, has-append k seen (id ∷ []), eq_iff id k);
      each = (((eq_iff _ _).0 op_eq, (is_empty-eq-false_iff _).0 status), w.each);
    }
  where
    parts :
        (has (record_key r) expected ≡ true)
        × (has (record_key r) seen ≡ false)
        × (((trim r.operation_id) === op) ≡ true)
        × (is_empty (trim r.status) ≡ false)
        × (records_complete op expected (seen ++ record_key r ∷ []) rs ≡ true)
    parts = ground arith

six_parts :
    (a b c d e f : Bool)
    → (not a && not b && c && d && e && f) ≡ true
    → (a ≡ false) × (b ≡ false) × (c ≡ true) × (e ≡ true) × (f ≡ true)
six_parts a b c d e f h = ground arith

-- The test of the source accepts complete evidence only.
pub accepted-IsComplete :
    (batch : ReservationBatch)
    → has_complete_relay_reservation_evidence batch ≡ true
    → IsComplete batch
unfolding has_complete_relay_reservation_evidence
accepted-IsComplete batch h =
    let ids = trimmed_ids batch in
    let op = trim batch.operation_id in
    let (operation, some_id, unique_ids, size, walk) =
      six_parts (is_empty op) (length ids == 0) (length (unique ids) == length ids)
        (every (λ id. not (is_empty id)) ids) (length batch.reservations == length ids)
        (records_complete op ids [] batch.reservations) h in
    let w = records_complete-Walked op ids [] batch.reservations walk in
    record {
      operation = (is_empty-eq-false_iff op).0 operation;
      some_id = (length_zero_iff ids).0 some_id;
      distinct_ids = (unique_iff ids).0 unique_ids;
      distinct_records = w.distinct;
      every_id = IsSubset-converse (map record_key batch.reservations) ids w.distinct w.inside (
          omega (
            arith,
            length-map batch.reservations record_key,
            (==_iff (length batch.reservations) (length ids)).0 size,
          ));
      no_other = w.inside;
      each = w.each;
    }

str_append-ne-empty : (s t : String) → is_empty s ≡ false → is_empty (str_append s t) ≡ false
str_append-ne-empty String.[] t h = cc
str_append-ne-empty (String.◌∷◌ c s) t h = rw cons-append

join_colon-ne-empty :
    (ids : List String)
    → (length ids == 0) ≡ false
    → every (λ id. not (is_empty id)) ids ≡ true
    → is_empty (join_colon ids) ≡ false
join_colon-ne-empty [] h k = cc
join_colon-ne-empty (id ∷ []) h k = ground arith
join_colon-ne-empty (id ∷ j ∷ ids) h k =
    str_append-ne-empty id (str_append ":" (join_colon (j ∷ ids))) (ground arith)

every-keep {ℓ} : {A : Type ℓ} (p : A → Bool) (xs : List A) → every p (keep p xs) ≡ true
every-keep p [] = refl
every-keep p (x ∷ xs) = ground (arith, every-keep p xs)

-- A kept snapshot: complete evidence under a key that is not empty.
pub record IsKept (s : RelaySnapshot) : Type 0 where
  pub complete : IsComplete s.reservation
  pub keyed : s.id ≢ ""

or_text-ne-empty :
    (s t : String) → (is_empty s ≡ true → is_empty t ≡ false) → is_empty (or_text s t) ≡ false
or_text-ne-empty String.[] t h = h refl
or_text-ne-empty (String.◌∷◌ c s) t h = refl

kept_snapshot-IsKept :
    (v : Value) (batch : ReservationBatch)
    → IsComplete batch
    → (is_empty (kept_payload_hash v batch)
        && length (keep (λ id. not (is_empty id)) batch.reservation_ids) == 0)
      ≡ false
    → IsKept (kept_snapshot v batch)
unfolding kept_snapshot
kept_snapshot-IsKept v batch c h = record {
  complete = c;
  keyed = (is_empty-eq-false_iff _).0 (
      or_text-ne-empty (kept_payload_hash v batch) _ λ e.
        join_colon-ne-empty (keep (λ id. not (is_empty id)) batch.reservation_ids) (ground arith)
          (every-keep (λ id. not (is_empty id)) batch.reservation_ids));
}

pub record Sanitized (v : Value) (s : RelaySnapshot) : Type 0 where
  pub batch : ReservationBatch
  pub complete : has_complete_relay_reservation_evidence batch ≡ true
  pub keyed :
      (is_empty (kept_payload_hash v batch)
        && length (keep (λ id. not (is_empty id)) batch.reservation_ids) == 0)
      ≡ false
  pub same : kept_snapshot v batch ≡ s

batch-Sanitized :
    (v : Value) (batch : ReservationBatch) (s : RelaySnapshot)
    → (if truthy v
          && has_complete_relay_reservation_evidence batch
          && not (
              is_empty (kept_payload_hash v batch)
              && length (keep (λ id. not (is_empty id)) batch.reservation_ids) == 0)
        then some (kept_snapshot v batch)
        else none)
      ≡ some s
    → Sanitized v s
batch-Sanitized v batch s h = record {
  batch = batch;
  complete = ground arith;
  keyed = ground arith;
  same = ground arith;
}

pub sanitize-Sanitized :
    (v : Value) (s : RelaySnapshot) → sanitize_relay_withdraw_snapshot v ≡ some s → Sanitized v s
unfolding sanitize_relay_withdraw_snapshot
sanitize-Sanitized v s h = elim (Option-cases (sanitize_reservation_batch (get "reservation" v))) [
  | inl none_kept ↦ absurd (nothing (rw (none_kept, sanitize_relay_withdraw_snapshot) at h))
  | inr (batch, kept) ↦ batch-Sanitized v batch s (rw (kept, sanitize_relay_withdraw_snapshot) at h)
]
  where
    nothing : none ≡ some s → ⊥
    nothing e = cc

-- Whatever the persisted value is, a snapshot that sanitizing keeps has complete evidence: exactly one
-- record, of its operation and with a state, for each of its distinct reservation ids. Its key is not
-- empty.
pub sanitize_relay_withdraw_snapshot-IsKept :
    (v : Value) (s : RelaySnapshot) → sanitize_relay_withdraw_snapshot v ≡ some s → IsKept s
sanitize_relay_withdraw_snapshot-IsKept v s h =
    let p = sanitize-Sanitized v s h in
    subst IsKept p.same
      (kept_snapshot-IsKept v p.batch (accepted-IsComplete p.batch p.complete) p.keyed)

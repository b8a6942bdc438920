-- ===== src/Relay/Fresh.antt =====
-- Putting fresh records into a batch.
use clairveil_samples.Js.{
  Value, array, elements, end, field, get, get-set_own, is_text, items, object, of_list, string,
  truthy,
}
use clairveil_samples.Prelude.{
  Bool-cases, List, Option-cases, String, [], ap, arith, eq_iff, find, inl, inr, map, refl, some,
  true, ◌∙◌, ◌∷◌, ◌≡◌,
}
use clairveil_samples.Relay.Sanitize.{
  ReservationRecord, array_or_empty, sanitize_reservation_record,
}
use clairveil_samples.Relay.Snapshot.{relay_reservation_ids}
use clairveil_samples.Relay.Update.{
  record_by_id, record_value, update_reservation_batch_records, updated_record,
}

record_by_id-id :
    (id : String) (rs : List ReservationRecord) (r : ReservationRecord)
    → record_by_id id rs ≡ some r
    → r.reservation_id ≡ id
unfolding record_by_id
record_by_id-id id [] r h = cc
record_by_id-id id (x ∷ rs) r h =
    ground (arith, record_by_id-id id rs r, eq_iff x.reservation_id id)

is_text-eq : (s : String) (v : Value) → is_text s v ≡ true → v ≡ string s
is_text-eq s (string t) h = ap string ((eq_iff t s).0 h)
is_text-eq s _ h = cc

found_text :
    (id : String) (vs : List Value) (v : Value)
    → find (λ w. is_text id (get "reservation_id" w)) vs ≡ some v
    → get "reservation_id" v ≡ string id
found_text id [] v h = cc
found_text id (w ∷ vs) v h = elim (Bool-cases (is_text id (get "reservation_id" w))) [
  | inl hit ↦ is_text-eq id (get "reservation_id" v) (ground arith)
  | inr miss ↦ found_text id vs v (ground arith)
]

get-record_value :
    (r : ReservationRecord) → get "reservation_id" (record_value r) ≡ string r.reservation_id
unfolding get record_value
get-record_value r = refl

stub :
    (id : String)
    → get "reservation_id" (
        object (
          field "reservation_id"
            (string id)
            (field "status" (string "") (field "payload_hash" (string "") end))))
      ≡ string id
unfolding get
stub id = refl

get-updated_record :
    (sanitized : List ReservationRecord) (existing : List Value) (id : String)
    → get "reservation_id" (updated_record sanitized existing id) ≡ string id
unfolding updated_record
get-updated_record sanitized existing id = elim (Option-cases (record_by_id id sanitized)) [
  | inl absent ↦ elim (Option-cases (find (λ v. is_text id (get "reservation_id" v)) existing)) [
    | inl unknown_id ↦ rw (absent, updated_record) (rw unknown_id (stub id))
    | inr (v, found) ↦ rw (absent, updated_record) (rw found (found_text id existing v found))
  ]
  | inr (r, found) ↦
      rw (found, updated_record)
        (get-record_value r ∙ ap string (record_by_id-id id sanitized r found))
]

items-of_list : (vs : List Value) → items (of_list vs) ≡ vs
unfolding items of_list
items-of_list [] = refl
items-of_list (v ∷ vs) = ap (λ (ws : List Value). v ∷ ws) (items-of_list vs)

map-ids :
    (f : String → Value) (ids : List String)
    → ((id : String) → get "reservation_id" (f id) ≡ string id)
    → map (get "reservation_id") (map f ids) ≡ map string ids
map-ids f [] h = refl
map-ids f (id ∷ ids) h = cc (h id, map-ids f ids h)

-- After records were put in, the records of a batch are those of its reservation ids, one each and in
-- their order, whatever the fresh records are.
pub update_reservation_batch_records-ids :
    (batch : Value) (r : Value) (records : List Value)
    → truthy batch ≡ true
    → (vs : List Value) × (elements
          (get "reservations" (update_reservation_batch_records batch (r ∷ records)))
        ≡ some vs)
      × (map (get "reservation_id") vs ≡ map string (relay_reservation_ids batch))
unfolding update_reservation_batch_records
update_reservation_batch_records-ids batch r records h =
    let f =
      updated_record (map sanitize_reservation_record (r ∷ records))
        (array_or_empty (get "reservations" batch)) in
    let ids = relay_reservation_ids batch in
    (
      map f ids,
      rw h (
          ap elements (get-set_own "reservations" (array (of_list (map f ids))) batch)
          ∙ (unfold elements in ap some (items-of_list (map f ids)))),
      map-ids f ids (get-updated_record (map sanitize_reservation_record (r ∷ records)) _),
    )

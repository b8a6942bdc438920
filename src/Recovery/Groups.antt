-- ===== src/Recovery/Groups.antt =====
-- public/reservation-recovery.js: the records of each operation.
use clairveil_samples.Batch.Prepared.{known}
use clairveil_samples.Js.{
  Value, get, insert, is_empty, is_text, is_true, lookup, message, text_or_empty, truthy,
}
use clairveil_samples.Prelude.{
  Bool, List, Option, String, [], every, false, if◌then◌else◌, length, ltb, map, none, not, some,
  unique, ◌&&◌, ◌++◌, ◌||◌, ◌∷◌,
}
use clairveil_samples.Recovery.Records.{first_text, given, reservation_operation_key}

abbrev pub Grouped : Type 0
Grouped = List (String × List Value)

abbrev pub records_or_none : Option (List Value) → List Value
records_or_none none = []
records_or_none (some records) = records

-- The operations by their keys, each with its records in their order.
unfoldable pub group_by_key : List Value → Grouped → Grouped
group_by_key [] grouped = grouped
group_by_key (v ∷ vs) grouped =
    let key = reservation_operation_key v in
    let joined = insert key (records_or_none (lookup key grouped) ++ v ∷ []) grouped in
    if not (truthy v) || is_empty key then group_by_key vs grouped else group_by_key vs joined

-- The texts of a property decide an order; `at_most` is left.localeCompare(right) <= 0.
unfoldable pub insert_ordered {ℓ} :
    {A : Type ℓ} → (String → String → Bool) → (A → String) → A → List A → List A
insert_ordered at_most text x [] = x ∷ []
insert_ordered at_most text x (y ∷ ys) =
    let rest = insert_ordered at_most text x ys in
    if at_most (text x) (text y) then x ∷ y ∷ ys else y ∷ rest

-- `.sort((left, right) => ...)`, which keeps the order of equals.
unfoldable pub order_by {ℓ} :
    {A : Type ℓ} → (String → String → Bool) → (A → String) → List A → List A
unfolding insert_ordered
order_by at_most text [] = []
order_by at_most text (x ∷ xs) = insert_ordered at_most text x (order_by at_most text xs)

abbrev pub created_at : String × List Value → String
created_at (key, []) = ""
created_at (key, v ∷ vs) = text_or_empty (get "created_at" v)

abbrev pub reservation_id_of : Value → String
reservation_id_of v = text_or_empty (get "reservation_id" v)

abbrev pub order_records : (String → String → Bool) → String × List Value → String × List Value
order_records at_most (key, records) = (key, order_by at_most reservation_id_of records)

-- groupReservationOperations
unfoldable pub group_reservation_operations : (String → String → Bool) → List Value → Grouped
group_reservation_operations at_most records =
    order_by at_most created_at (map (order_records at_most) (group_by_key records []))

-- A record says that its operation succeeded.
unfoldable pub record_succeeded : Value → Bool
record_succeeded v =
    is_text "ConfirmedSpent" (get "status" v)
    && is_text "Succeeded" (get "operation_status" (get "metadata" v))
    && is_true (get "operation_success_evidence_matches" (get "metadata" v))

-- The keys of the records are texts; those that are empty are not added.
abbrev pub lookup_key_of : Value → String
lookup_key_of v = text_or_empty (get "nullifier_lookup_key" v)

abbrev pub operation_succeeded : List Value → Bool
operation_succeeded [] = false
operation_succeeded (v ∷ vs) = every record_succeeded (v ∷ vs)

unfoldable pub add_succeeded : Grouped → List String
add_succeeded [] = []
add_succeeded ((key, records) ∷ operations) =
    let rest = add_succeeded operations in
    if operation_succeeded records then given (map lookup_key_of records) ++ rest else rest

-- succeededOperationLookupKeys
unfoldable pub succeeded_operation_lookup_keys : (String → String → Bool) → List Value → List String
unfolding add_succeeded group_reservation_operations
succeeded_operation_lookup_keys at_most records =
    unique (add_succeeded (group_reservation_operations at_most records))

abbrev reconciliation_key : Value → String
reconciliation_key v =
    let id = first_text "reservation_id" "reservationId" v in
    let operation = reservation_operation_key v in
    let lookup_key = lookup_key_of v in
    if not (is_empty id)
    then id
    else if not (is_empty operation) && not (is_empty lookup_key)
    then message (operation ∷ ":" ∷ lookup_key ∷ [])
    else ""

unfoldable pub records_by_id : List Value → List (String × Value) → List (String × Value)
records_by_id [] known = known
records_by_id (v ∷ vs) known =
    let key = reconciliation_key v in
    let added = insert key v known in
    if not (truthy v) || is_empty key then records_by_id vs known else records_by_id vs added

-- reconciliationReservationRecords, of the collections one after the other
unfoldable pub reconciliation_reservation_records : List Value → List Value
unfolding records_by_id
reconciliation_reservation_records records = map (λ (key, v). v) (records_by_id records [])

-- canReconcileReservationState
unfoldable pub can_reconcile_reservation_state :
    Value → List Value → List Value → Value → Value → Bool
unfolding reconciliation_reservation_records
can_reconcile_reservation_state privacy_ready active unresolved privacy_pending reconciling =
    is_true privacy_ready
    && (is_true privacy_pending
        || ltb 0 (length (reconciliation_reservation_records (active ++ unresolved))))
    && not (is_true reconciling)

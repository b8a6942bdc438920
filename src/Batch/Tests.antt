-- ===== src/Batch/Tests.antt =====
-- Runs of the batch transfers, and the theorems at concrete inputs.
use clairveil_samples.Batch.Amounts.{bounded_count, canonical_hex, positive_integer}
use clairveil_samples.Batch.Coverage.{preview_in_one_batch_iff, preview_selects}
use clairveil_samples.Batch.Facts.{Balanced, prepared_facts-Balanced}
use clairveil_samples.Batch.Identities.{requested_total}
use clairveil_samples.Batch.Next.{AllPayable, select_next-Added, select_next_returns}
use clairveil_samples.Batch.Planning.{Added, amount_or_zero}
use clairveil_samples.Batch.Prepared.{
  Facts, check_batch, check_payment, check_prepared, count_disclosure, count_disclosures,
  elements_or_none, matches_request, prepared_batch_transfer_facts, prepared_counts, prepared_id,
  read_requested, requested_amount, requested_id,
}
use clairveil_samples.Batch.Preview.{preview_state}
use clairveil_samples.Batch.Select.{
  output_count, payment_amount, payment_item_id, plan, select_next_atomic_batch_payments,
  take_payment,
}
use clairveil_samples.Batch.Settled.{
  batch_transfer_reservations_succeeded, is_in_flight, reservation_succeeded,
}
use clairveil_samples.Batch.Targets.{
  base64_hex, matched_output, output_targets, prepared_batch_payment_output,
}
use clairveil_samples.Js.{
  Value, array, bigint, boolean, cons, decimal_before, element_at, elements, end, field, get,
  get_field, insert, is_space, items, lookup, lower_char, message, nat, nil, number, object, remove,
  safe_nat, string, strip_0x, text_of, text_or_empty, to_decimal, to_lower_case, to_number, trim,
  trim_end, trim_start, truthy, undefined,
}
use clairveil_samples.Prelude.{
  AllDistinct, List, Option, String, [], arith, choose, false, has, if◌then◌else◌, length, ltb, map,
  none, not, ok, refl, some_of, sum, take, true, ℕ, ◌&&◌, ◌+◌, ◌-◌, ◌<◌, ◌↔◌, ◌∷◌, ◌≡◌, ◌≤◌, ◌⊎◌,
}

abbrev payment_of : String → ℕ → Value
payment_of item_id amount =
    object (field "itemId" (string item_id) (field "amountValue" (bigint amount) end))

abbrev three_payments : List Value
three_payments = payment_of "a" 5 ∷ payment_of "b" 5 ∷ payment_of "c" 1 ∷ []

abbrev exact_group : List Value
exact_group = payment_of "a" 5 ∷ payment_of "b" 5 ∷ []

-- Two payments that meet the capacity need no output for change.
exact_fill :
    select_next_atomic_batch_payments three_payments (bigint 10) (number (nat 2)) ≡ ok exact_group
unfolding select_next_atomic_batch_payments plan take_payment choose payment_amount payment_item_id
    positive_integer bounded_count get get_field to_number safe_nat text_of message to_decimal
    decimal_before
exact_fill = refl

reads_capacity : positive_integer (bigint 10) "atomic batch input capacity" ≡ ok 10
unfolding positive_integer
reads_capacity = refl

reads_limit : bounded_count (number (nat 2)) "atomic batch output capacity" 32 ≡ ok 2
unfolding bounded_count to_number safe_nat
reads_limit = refl

all_payable : AllPayable three_payments
unfolding amount_or_zero payment_amount positive_integer get get_field
all_payable = refl

first_is_small : amount_or_zero (payment_of "a" 5) ≤ 10
unfolding amount_or_zero payment_amount positive_integer get get_field
first_is_small = omega arith

first_has_outputs : output_count 1 (amount_or_zero (payment_of "a" 5)) 10 ≤ 2
unfolding amount_or_zero payment_amount positive_integer get get_field
first_has_outputs = omega arith

select_next-Added_example :
    (capacity : ℕ) × (output_limit : ℕ) × (positive_integer
        (bigint 10)
        "atomic batch input capacity"
      ≡ ok capacity)
    × (bounded_count (number (nat 2)) "atomic batch output capacity" 32 ≡ ok output_limit)
    × (0 < length exact_group)
    × Added capacity output_limit 0 0 three_payments exact_group
select_next-Added_example =
    select_next-Added three_payments (bigint 10) (number (nat 2)) exact_group exact_fill

select_next_returns_example :
    (group : List Value) × (select_next_atomic_batch_payments three_payments
        (bigint 10)
        (number (nat 2))
      ≡ ok (payment_of "a" 5 ∷ group))
select_next_returns_example =
    select_next_returns (payment_of "a" 5) (payment_of "b" 5 ∷ payment_of "c" 1 ∷ []) (bigint 10)
      (number (nat 2)) 10 2 reads_capacity reads_limit all_payable first_is_small first_has_outputs

preview_selects_example :
    let p = preview_state (7 ∷ []) (4 ∷ 4 ∷ 9 ∷ []) 16 32 in
    (p.selected_total ≡ sum (take p.selected_count (4 ∷ 4 ∷ 9 ∷ [])))
    × (p.selected_count ≤ 16)
    × (p.selected_count ≡ 0 ⊎ sum (take (p.selected_count - 1) (4 ∷ 4 ∷ 9 ∷ [])) < sum (7 ∷ []))
preview_selects_example = preview_selects (7 ∷ []) (4 ∷ 4 ∷ 9 ∷ []) 16 32

preview_in_one_batch_iff_example :
    let p = preview_state (7 ∷ []) (4 ∷ 4 ∷ 9 ∷ []) 16 32 in
    ((p.total_covered && not p.requires_split) ≡ true) ↔ (
      (0 < sum (7 ∷ []))
      × (sum (7 ∷ []) ≤ sum (take 16 (4 ∷ 4 ∷ 9 ∷ [])))
      × (1 + (if ltb (sum (7 ∷ [])) p.selected_total then 1 else 0) ≤ 32))
preview_in_one_batch_iff_example = preview_in_one_batch_iff (7 ∷ []) (4 ∷ 4 ∷ 9 ∷ []) 16 32

abbrev settled_reservation : Value
settled_reservation = object (
    field "status" (string "ConfirmedSpent") (
      field "expected_operation_evidence_hash" (string "0xAB") (
        field "metadata"
          (object (
            field "operation_success_evidence_required" (boolean true) (
              field "operation_status" (string "Succeeded")
                (field "operation_success_evidence_matches" (boolean true) end))))
          end)))

settled_has_succeeded :
    batch_transfer_reservations_succeeded (settled_reservation ∷ []) none (string "ab") ≡ true
unfolding batch_transfer_reservations_succeeded reservation_succeeded canonical_hex strip_0x
    to_lower_case lower_char trim trim_start trim_end is_space text_or_empty text_of truthy get
    get_field
settled_has_succeeded = refl

settled_has_landed : some_of is_in_flight (settled_reservation ∷ []) ≡ false
unfolding get get_field
settled_has_landed = refl

undefined_is_false : truthy undefined ≡ false
unfolding truthy
undefined_is_false = refl

-- One payment of 7, prepared with inputs worth 9.
abbrev requested_rows : Value
requested_rows = array (cons (payment_of "a" 7) nil)

abbrev prepared_batch : Value
prepared_batch = object (
    field "payments"
      (array
        (cons (object (field "itemId" (string "a") (field "amount" (string "7uclair") end))) nil))
      (field "inputCount" (number (nat 1)) (
        field "outputCount" (number (nat 2)) (
          field "selectedInputTotal" (bigint 9) (
            field "operationEvidence"
              (object (
                field "expected_outputs"
                  (array (
                    cons
                      (object (
                        field "item_id" (string "a") (
                          field "role" (string "payment")
                            (field "batch_item_index" (number (nat 0)) end))))
                      nil))
                  end))
              (field "payload"
                (object (
                  field "outputs" (array (cons (object end) nil))
                    (field "message_outputs" (array (cons (object end) nil)) end)))
                end))))))

abbrev no_base64 : String → Option String
no_base64 text = none

abbrev expected_facts : Facts
expected_facts = record {
  total = 7;
  change = 2;
  input_count = 1;
  output_count = 2;
  payment_count = 1;
  disclosure_counts = record { private = 1; public = 0; recipient_encrypted = 0 };
}

facts_are_given :
    prepared_batch_transfer_facts no_base64 requested_rows prepared_batch (string "uclair") 16 32
    ≡ ok expected_facts
unfolding prepared_batch_transfer_facts check_batch check_prepared check_payment read_requested
    requested_amount requested_id prepared_id positive_integer bounded_count prepared_counts
    count_disclosures count_disclosure matches_request prepared_batch_payment_output matched_output
    output_targets base64_hex element_at message choose canonical_hex strip_0x to_lower_case trim
    trim_start trim_end is_space text_or_empty text_of truthy get get_field elements items to_number
    safe_nat to_decimal decimal_before lookup insert remove
facts_are_given = refl

prepared_facts-Balanced_example :
    AllDistinct (map requested_id (elements_or_none requested_rows))
    × (length (elements_or_none (get "payments" prepared_batch))
        ≡ length (elements_or_none requested_rows))
    × ((k : String)
        → has k (map prepared_id (elements_or_none (get "payments" prepared_batch)))
          ≡ has k (map requested_id (elements_or_none requested_rows)))
    × Balanced
        (elements_or_none requested_rows)
        (requested_total (elements_or_none requested_rows))
        prepared_batch
        16
        32
        expected_facts
prepared_facts-Balanced_example =
    prepared_facts-Balanced no_base64 requested_rows prepared_batch (string "uclair") 16 32
      expected_facts facts_are_given

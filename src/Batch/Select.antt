-- ===== src/Batch/Select.antt =====
-- The payments of the next atomic batch.
use clairveil_samples.Batch.Amounts.{bounded_count, positive_integer}
use clairveil_samples.Js.{Value, get, message, string, text_of, ◌or_nullish◌}
use clairveil_samples.Prelude.{
  List, Result, String, [], choose, has, if◌then◌else◌, keep, ltb, map, not, ok, throw, unique, ℕ,
  ◌&&◌, ◌+◌, ◌==◌, ◌>>=◌, ◌∷◌,
}

-- The amount of a payment.
unfoldable pub payment_item_id : Value → String
payment_item_id payment =
    text_of (get "itemId" payment or_nullish get "item_id" payment or_nullish string "item")

unfoldable pub payment_amount : Value → Result ℕ
payment_amount payment =
    positive_integer (get "amountValue" payment)
      (message ("payment " ∷ payment_item_id payment ∷ " amount" ∷ []))

-- The outputs of a batch of `count` payments that spend `total` of the capacity.
abbrev pub output_count : ℕ → ℕ → ℕ → ℕ
output_count count total capacity = count + (if ltb total capacity then 1 else 0)

-- One turn of the loop, with what the later turns would give.
unfoldable pub take_payment : ℕ → ℕ → ℕ → ℕ → Value → ℕ → Result (List Value) → Result (List Value)
take_payment capacity output_limit count total payment amount rest =
    choose (amount == 0)
      (throw (message ("Payment " ∷ payment_item_id payment ∷ " amount must be positive" ∷ [])))
      (choose (ltb capacity amount && count == 0)
        (throw (
          message (
            "Payment "
            ∷ payment_item_id payment
            ∷ " exceeds the current 16-input capacity and cannot be split without changing that payment's atomic semantics"
            ∷ [])))
        (choose (ltb capacity (total + amount)) (ok []) (
          choose (ltb output_limit (output_count (count + 1) (total + amount) capacity)) (ok [])
            (rest >>= λ group. ok (payment ∷ group)))))

-- The loop over the payments, from a group of `count` payments of `total`: what it adds to the group.
unfoldable pub plan : ℕ → ℕ → ℕ → ℕ → List Value → Result (List Value)
plan capacity output_limit count total [] = ok []
plan capacity output_limit count total (payment ∷ payments) = payment_amount payment >>= λ amount.
    take_payment capacity output_limit count total payment amount
      (plan capacity output_limit (count + 1) (total + amount) payments)

abbrev pub not_empty : List Value → Result (List Value)
not_empty [] = throw "The next atomic batch cannot be planned from current notes"
not_empty (payment ∷ payments) = ok (payment ∷ payments)

-- selectNextAtomicBatchPayments
unfoldable pub select_next_atomic_batch_payments : List Value → Value → Value → Result (List Value)
select_next_atomic_batch_payments payments input_capacity max_outputs =
    positive_integer input_capacity "atomic batch input capacity" >>= λ capacity.
    bounded_count max_outputs "atomic batch output capacity" 32 >>= λ output_limit.
    if capacity == 0
    then throw "No currently spendable input capacity remains for the next atomic batch"
    else plan capacity output_limit 0 0 payments >>= not_empty

-- pendingBatchTransferPayments
unfoldable pub pending_batch_transfer_payments : List Value → List Value → List Value
pending_batch_transfer_payments payments completed_item_ids =
    let completed = unique (map text_of completed_item_ids) in
    keep
      (λ payment. not (
        has (text_of (get "itemId" payment or_nullish get "item_id" payment or_nullish string ""))
          completed))
      payments

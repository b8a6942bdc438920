-- ===== src/Batch/Preview.antt =====
-- The preview of a batch transfer.
use clairveil_samples.Batch.Amounts.{positive_integer}
use clairveil_samples.Coordinator.State.{change}
use clairveil_samples.Js.{Value, message, to_decimal}
use clairveil_samples.Prelude.{
  Bool, List, Option, Result, String, [], if◌then◌else◌, leb, length, ltb, none, not, ok, some, sum,
  take, ℕ, ◌&&◌, ◌+◌, ◌-◌, ◌>>=◌, ◌||◌, ◌∷◌,
}

pub record Preview : Type 0 where
  pub total : ℕ
  pub total_available : ℕ
  pub one_batch_capacity : ℕ
  pub selected_count : ℕ
  pub selected_total : ℕ
  pub estimated_change : Option ℕ
  pub output_count : ℕ
  pub total_covered : Bool
  pub inputs_exceeded : Bool
  pub outputs_exceeded : Bool
  pub requires_split : Bool
  pub unsplittable_payment_indexes : List ℕ

-- The loop over the notes, from `count` selected of `selected`: how many are selected, and their sum.
unfoldable pub select_notes : ℕ → ℕ → ℕ → ℕ → List ℕ → ℕ × ℕ
select_notes max_inputs total count selected [] = (count, selected)
select_notes max_inputs total count selected (amount ∷ notes) =
    let rest = select_notes max_inputs total (count + 1) (selected + amount) notes in
    if leb max_inputs count || leb total selected then (count, selected) else rest

-- The indexes, from `i`, of the payments above the capacity.
unfoldable pub indexes_above : ℕ → ℕ → List ℕ → List ℕ
indexes_above capacity i [] = []
indexes_above capacity i (amount ∷ payments) =
    let rest = indexes_above capacity (i + 1) payments in
    if ltb capacity amount then i ∷ rest else rest

abbrev pub change_output : Option ℕ → ℕ
change_output none = 1
change_output (some change) = if ltb 0 change then 1 else 0

-- The preview, of the amounts that were read.
unfoldable pub preview_state : List ℕ → List ℕ → ℕ → ℕ → Preview
preview_state payments notes max_inputs max_outputs =
    let total = sum payments in
    let available = sum notes in
    let capacity = sum (take max_inputs notes) in
    let (count, selected) = select_notes max_inputs total 0 0 notes in
    let covered = ltb 0 total && leb total available in
    let over_inputs = ltb capacity total in
    let change = if not over_inputs && leb total selected then some (selected - total) else none in
    let outputs = length payments + change_output change in
    let over_outputs = ltb max_outputs outputs in
    record {
      total = total;
      total_available = available;
      one_batch_capacity = capacity;
      selected_count = count;
      selected_total = selected;
      estimated_change = change;
      output_count = outputs;
      total_covered = covered;
      inputs_exceeded = over_inputs;
      outputs_exceeded = over_outputs;
      requires_split = covered && (over_inputs || over_outputs);
      unsplittable_payment_indexes =
          if covered && ltb 0 capacity then indexes_above capacity 0 payments else [];
    }

-- The amounts, numbered from `i`.
unfoldable pub read_amounts : String → ℕ → List Value → Result (List ℕ)
read_amounts label i [] = ok []
read_amounts label i (value ∷ values) =
    positive_integer value (message (label ∷ " " ∷ to_decimal i ∷ " amount" ∷ [])) >>= λ amount.
    read_amounts label (i + 1) values >>= λ amounts. ok (amount ∷ amounts)

-- computeBatchTransferPreviewState
unfoldable pub compute_batch_transfer_preview_state :
    List Value → List Value → ℕ → ℕ → Result Preview
compute_batch_transfer_preview_state payment_amounts note_amounts max_inputs max_outputs =
    read_amounts "payment" 0 payment_amounts >>= λ payments.
    read_amounts "note" 0 note_amounts >>= λ notes.
    ok (preview_state payments notes max_inputs max_outputs)

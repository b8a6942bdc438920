-- ===== src/Batch/Facts.antt =====
-- What the facts of a prepared batch say.
use clairveil_samples.Batch.Amounts.{bounded_count, bounded_count-le, positive_integer}
use clairveil_samples.Batch.Identities.{
  check_prepared_ids, nothing_left, read_requested-Read, requested_total,
}
use clairveil_samples.Batch.Prepared.{
  DisclosureCounts, Facts, change_outputs, check_batch, check_prepared, count_disclosure,
  count_disclosures, elements_or_none, prepared_batch_transfer_facts, prepared_counts, prepared_id,
  read_requested, requested_id, requested_left,
}
use clairveil_samples.Js.{Value, get, is_empty, lookup, text_or_empty}
use clairveil_samples.Prelude.{
  >>=-eq-ok, AllDistinct, List, Option, String, [], arith, has, if◌then◌else◌, leb, length, ltb,
  map, not, ok, ok_injective, refl, requiring, subst, ℕ, ◌&&◌, ◌+◌, ◌-◌, ◌==◌, ◌∷◌, ◌≡◌, ◌≤◌,
}

counts_sum : DisclosureCounts → ℕ
counts_sum counts = counts.private + counts.public + counts.recipient_encrypted

count_disclosure-sum :
    (mode : Value) (counts : DisclosureCounts)
    → counts_sum (count_disclosure mode counts) ≡ counts_sum counts + 1
unfolding count_disclosure counts_sum
count_disclosure-sum mode counts = ground arith

count_disclosures-sum :
    (payments : List Value) (counts : DisclosureCounts)
    → counts_sum (count_disclosures payments counts) ≡ counts_sum counts + length payments
unfolding count_disclosures
count_disclosures-sum [] counts = omega arith
count_disclosures-sum (payment ∷ payments) counts = omega (
  arith,
  count_disclosure-sum (get "userDisclosureMode" payment) counts,
  count_disclosures-sum payments (count_disclosure (get "userDisclosureMode" payment) counts),
)

-- The numbers of a prepared batch that passed its checks: the inputs are worth the total and the change,
-- there is an output for every payment and one more if there is change, the inputs and outputs are
-- within their limits, and every payment has one disclosure mode.
pub record Balanced (payments : List Value) (total : ℕ) (prepared : Value)
    (max_inputs max_outputs : ℕ) (facts : Facts) : Type 0 where
  pub totals : facts.total ≡ total
  pub inputs_cover :
      positive_integer (get "selectedInputTotal" prepared) "Prepared batch selected input total"
      ≡ ok (facts.total + facts.change)
  pub outputs_fit : facts.output_count ≡ length payments + (if ltb 0 facts.change then 1 else 0)
  pub counted : facts.payment_count ≡ length payments
  pub within :
      (1 ≤ facts.input_count)
      × (facts.input_count ≤ max_inputs)
      × (facts.output_count ≤ max_outputs)
  pub disclosures :
      facts.disclosure_counts.private + facts.disclosure_counts.public
        + facts.disclosure_counts.recipient_encrypted
      ≡ length payments

prepared_counts-Balanced :
    (payments : List Value) (total : ℕ) (prepared : Value) (max_inputs max_outputs : ℕ)
    (facts : Facts)
    → prepared_counts payments total prepared max_inputs max_outputs ≡ ok facts
    → Balanced payments total prepared max_inputs max_outputs facts
unfolding prepared_counts counts_sum
prepared_counts-Balanced payments total prepared max_inputs max_outputs facts h =
    let (inputs, read_inputs, h₁) =
      >>=-eq-ok (bounded_count (get "inputCount" prepared) _ max_inputs) _ h in
    let (outputs, read_outputs, h₂) =
      >>=-eq-ok (bounded_count (get "outputCount" prepared) _ max_outputs) _ h₁ in
    let (selected, read_total, h₃) =
      >>=-eq-ok (positive_integer (get "selectedInputTotal" prepared) _) _ h₂ in
    let (covers, h₄) = requiring (leb total selected) _ _ h₃ in
    let (fit, h₅) =
      requiring (outputs == length payments + change_outputs (selected - total)) _ _ h₄ in
    subst (Balanced payments total prepared max_inputs max_outputs) (ok_injective h₅) (record {
      totals = refl;
      inputs_cover = ground (arith, read_total, covers);
      outputs_fit = ground (arith, fit);
      counted = refl;
      within = (
        (bounded_count-le _ _ max_inputs inputs read_inputs).0,
        (bounded_count-le _ _ max_inputs inputs read_inputs).1,
        (bounded_count-le _ _ max_outputs outputs read_outputs).1,
      );
      disclosures = omega (
        arith,
        count_disclosures-sum payments
            (record { private = 0; public = 0; recipient_encrypted = 0 }),
      );
    })

check_batch-Balanced :
    (atob : String → Option String) (denom : String) (requested : List Value) (prepared : Value)
    (payments : List Value) (max_inputs max_outputs : ℕ) (facts : Facts)
    → check_batch atob denom requested prepared payments max_inputs max_outputs ≡ ok facts
    → AllDistinct (map requested_id requested)
      × ((k : String) → has k (map prepared_id payments) ≡ has k (map requested_id requested))
      × Balanced requested (requested_total requested) prepared max_inputs max_outputs facts
unfolding check_batch lookup
check_batch-Balanced atob denom requested prepared payments max_inputs max_outputs facts h =
    let ((by_id, total), read, h₁) = >>=-eq-ok (read_requested requested [] 0) _ h in
    let (left, checked, h₂) = >>=-eq-ok (check_prepared atob denom prepared payments by_id) _ h₁ in
    let (all, h₃) = requiring (not (requested_left left)) _ _ h₂ in
    let r = read_requested-Read requested [] 0 read in
    let same : total ≡ requested_total requested = omega (arith, r.totals) in
    (
      r.fresh,
      λ k. ground (
        arith,
        r.ids k,
        check_prepared_ids atob denom prepared payments by_id left checked k,
        nothing_left left all,
      ),
      subst (λ t. Balanced requested t prepared max_inputs max_outputs facts) same
          (prepared_counts-Balanced requested total prepared max_inputs max_outputs facts h₃),
    )

-- Where the facts of a prepared batch are given, the requested payments have distinct identities, there
-- are as many prepared payments and they have the same identities, and the numbers balance: the inputs
-- are worth the requested amounts and the change, there is an output for every payment and one more if
-- there is change, inputs and outputs are within their limits, and every payment has one disclosure mode.
pub prepared_facts-Balanced :
    (atob : String → Option String) (requested_payments prepared denom : Value)
    (max_inputs max_outputs : ℕ) (facts : Facts)
    → prepared_batch_transfer_facts atob requested_payments prepared denom max_inputs max_outputs
      ≡ ok facts
    → let requested = elements_or_none requested_payments in
      let payments = elements_or_none (get "payments" prepared) in
      AllDistinct (map requested_id requested)
      × (length payments ≡ length requested)
      × ((k : String) → has k (map prepared_id payments) ≡ has k (map requested_id requested))
      × Balanced requested (requested_total requested) prepared max_inputs max_outputs facts
unfolding prepared_batch_transfer_facts
prepared_facts-Balanced atob requested_payments prepared denom max_inputs max_outputs facts h =
    let requested = elements_or_none requested_payments in
    let payments = elements_or_none (get "payments" prepared) in
    let (named, h₁) = requiring (not (is_empty (text_or_empty denom))) _ _ h in
    let (rows, h₂) =
      requiring (not (length requested == 0) && length payments == length requested) _ _ h₁ in
    let (distinct, same, balanced) =
      check_batch-Balanced atob (text_or_empty denom) requested prepared payments max_inputs
        max_outputs facts h₂ in
    (distinct, ground (arith, rows), same, balanced)

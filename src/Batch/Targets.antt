-- ===== src/Batch/Targets.antt =====
-- The output that a prepared batch has for one payment: preparedBatchPaymentOutput. `atob` decodes base64
-- to a text of bytes, or throws.
use clairveil_samples.Batch.Outputs.{hex_of}
use clairveil_samples.Js.{
  Value, element_at, elements, get, is_empty, message, safe_nat, string, text_of, text_or_empty,
  to_number, trim, truthy, ◌or_nullish◌,
}
use clairveil_samples.Prelude.{
  List, Option, Result, String, [], if◌then◌else◌, keep, none, ok, require, some, throw, ◌&&◌,
  ◌===◌, ◌>>=◌, ◌>>◌, ◌∷◌,
}

pub record PaymentOutput : Type 0 where
  pub evidence : Value
  pub output : Value
  pub message_output : Value
  pub target_hex : String

abbrev pub item_or_default : String → String
item_or_default item_id = if is_empty item_id then "item" else item_id

abbrev pub prepared_payment : String → String → String
prepared_payment item_id rest =
    message ("Prepared batch payment " ∷ item_or_default item_id ∷ rest ∷ [])

module _ (atob : String → Option String) where
  -- base64Hex
  unfoldable pub base64_hex : Value → String → Result String
  base64_hex value label =
      let encoded = trim (text_or_empty value) in
      if is_empty encoded then ok "" else elim (atob encoded) [
        | none ↦ throw (message (label ∷ " is not valid base64" ∷ []))
        | some decoded ↦ ok (hex_of decoded)
      ]

  -- The targets of an output and its message.
  unfoldable pub output_targets : String → Value → Value → Value → Result PaymentOutput
  output_targets item_id evidence output message_output =
      require (truthy output && truthy message_output)
        (prepared_payment item_id " output payload is unavailable")
      >> (base64_hex
            (get "disclosure_target_pubkey" output or_nullish get "disclosureTargetPubKey" output)
            (prepared_payment item_id " disclosure target")
          >>= λ private_target.
              base64_hex
                (get "user_disclosure_target_pubkey" message_output
                  or_nullish get "userDisclosureTargetPubkey" message_output)
                (prepared_payment item_id " message disclosure target")
              >>= λ message_target.
                  require (private_target === message_target)
                    (prepared_payment item_id " disclosure targets conflict")
                  >> ok (record {
                    evidence = evidence;
                    output = output;
                    message_output = message_output;
                    target_hex = private_target;
                  }))

  -- The only output of the item, which is a payment.
  unfoldable pub matched_output : Value → String → List Value → Result PaymentOutput
  matched_output prepared item_id (evidence ∷ []) =
      if text_or_empty (get "role" evidence) === "payment"
      then elim (safe_nat
          (to_number (get "batch_item_index" evidence or_nullish get "batchItemIndex" evidence))) [
            | none ↦ throw (prepared_payment item_id " output index is invalid")
            | some index ↦
                let payload = get "payload" prepared in
                output_targets item_id evidence (element_at index (get "outputs" payload))
                  (element_at index (get "message_outputs" payload))
          ]
      else throw (prepared_payment item_id " output evidence is invalid")
  matched_output prepared item_id _ = throw (prepared_payment item_id " output evidence is invalid")

  -- preparedBatchPaymentOutput
  unfoldable pub prepared_batch_payment_output : Value → String → Result PaymentOutput
  prepared_batch_payment_output prepared item_id =
      let operation_evidence =
        get "operationEvidence" prepared or_nullish get "operation_evidence" prepared in
      elim (elements (
        get "expected_outputs" operation_evidence
        or_nullish get "expectedOutputs" operation_evidence)) [
          | none ↦ throw "Prepared batch operation evidence is unavailable"
          | some expected_outputs ↦ matched_output prepared item_id (
              keep
                (λ output.
                  text_of (get "item_id" output or_nullish get "itemId" output or_nullish string "")
                  === item_id)
                expected_outputs)
        ]

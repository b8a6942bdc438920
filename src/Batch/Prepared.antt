-- ===== src/Batch/Prepared.antt =====
-- What a prepared batch comes to, checked against the payments that were requested. `atob` decodes
-- base64 to a text of bytes, or throws.
use clairveil_samples.Batch.Amounts.{bounded_count, canonical_hex, positive_integer}
use clairveil_samples.Batch.Targets.{
  item_or_default, prepared_batch_payment_output, prepared_payment,
}
use clairveil_samples.Js.{
  Value, elements, get, insert, is_empty, is_text, lookup, message, remove, string, text_of,
  text_or_empty, to_decimal, ◌or_nullish◌, ◌or◌,
}
use clairveil_samples.Prelude.{
  Bool, List, Option, Result, String, [], choose, false, if◌then◌else◌, leb, length, ltb, none, not,
  ok, require, some, throw, true, ℕ, ◌&&◌, ◌+◌, ◌-◌, ◌===◌, ◌==◌, ◌>>=◌, ◌>>◌, ◌||◌, ◌∷◌,
}

pub record DisclosureCounts : Type 0 where
  pub private : ℕ
  pub public : ℕ
  pub recipient_encrypted : ℕ

pub record Facts : Type 0 where
  pub total : ℕ
  pub change : ℕ
  pub input_count : ℕ
  pub output_count : ℕ
  pub payment_count : ℕ
  pub disclosure_counts : DisclosureCounts

-- The identity of a requested and of a prepared payment.
unfoldable pub requested_id : Value → String
requested_id payment = text_or_empty (get "itemId" payment)

unfoldable pub prepared_id : Value → String
prepared_id payment =
    text_of (get "itemId" payment or_nullish get "item_id" payment or_nullish string "")

unfoldable pub requested_amount : Value → Result ℕ
requested_amount payment =
    positive_integer (get "amountValue" payment)
      (message ("payment " ∷ item_or_default (requested_id payment) ∷ " amount" ∷ []))

abbrev pub known : Option (Value × ℕ) → Bool
known none = false
known (some entry) = true

-- The loop over the requested payments: by identity, with their amounts, and the total.
unfoldable pub read_requested :
    List Value → List (String × (Value × ℕ)) → ℕ → Result (List (String × (Value × ℕ)) × ℕ)
read_requested [] by_id total = ok (by_id, total)
read_requested (payment ∷ payments) by_id total = requested_amount payment >>= λ amount.
    let rest =
      read_requested payments (insert (requested_id payment) (payment, amount) by_id)
        (total + amount) in
    choose
      (is_empty (requested_id payment)
        || amount == 0
        || known (lookup (requested_id payment) by_id))
      (throw "Requested batch payment identity is invalid") rest

-- The texts of a payment, by either name.
abbrev both : String → String → Value → String
both name other payment = text_of (get name payment or get other payment or string "")

abbrev disclosure_target : Value → String
disclosure_target payment = canonical_hex (
    get "userDisclosureTargetPubKeyHex" payment
    or_nullish get "user_disclosure_target_pubkey_hex" payment)

-- Whether a prepared payment has the effect that was requested; `target_hex` is that of its output.
unfoldable pub matches_request : String → Value → Value → ℕ → String → Bool
matches_request denom payment requested amount target_hex =
    let requested_target = disclosure_target requested in
    let prepared_target = disclosure_target payment in
    text_or_empty (get "amount" payment) === message (to_decimal amount ∷ denom ∷ [])
    && text_or_empty (get "recipient" payment) === text_or_empty (get "recipient" requested)
    && both "privacyPolicy" "privacy_policy" payment
      === text_or_empty (get "userPrivacyPolicy" requested)
    && both "disclosureMode" "disclosure_mode" payment
      === text_or_empty (get "userDisclosureMode" requested)
    && (is_empty prepared_target || prepared_target === requested_target)
    && target_hex === requested_target

-- The turn of the loop for a prepared payment and what was requested under its identity.
unfoldable pub check_payment :
    (String → Option String) → String → Value → Value → Option (Value × ℕ) → Result (Unit {0})
check_payment atob denom prepared payment none =
    throw (prepared_payment (prepared_id payment) " does not match its requested effect")
check_payment atob denom prepared payment (some (requested, amount)) =
    prepared_batch_payment_output atob prepared (prepared_id payment) >>= λ output.
    require (matches_request denom payment requested amount output.target_hex)
      (prepared_payment (prepared_id payment) " does not match its requested effect")

-- The loop over the prepared payments: the requests that are left.
unfoldable pub check_prepared :
    (String → Option String)
    → String
    → Value
    → List Value
    → List (String × (Value × ℕ))
    → Result (List (String × (Value × ℕ)))
check_prepared atob denom prepared [] by_id = ok by_id
check_prepared atob denom prepared (payment ∷ payments) by_id =
    check_payment atob denom prepared payment (lookup (prepared_id payment) by_id)
    >> check_prepared atob denom prepared payments (remove (prepared_id payment) by_id)

unfoldable pub count_disclosure : Value → DisclosureCounts → DisclosureCounts
count_disclosure mode counts =
    if is_text "public" mode
    then record counts { public = counts.public + 1 }
    else if is_text "recipient-encrypted" mode
    then record counts { recipient_encrypted = counts.recipient_encrypted + 1 }
    else record counts { private = counts.private + 1 }

unfoldable pub count_disclosures : List Value → DisclosureCounts → DisclosureCounts
count_disclosures [] counts = counts
count_disclosures (payment ∷ payments) counts =
    count_disclosures payments (count_disclosure (get "userDisclosureMode" payment) counts)

abbrev pub change_outputs : ℕ → ℕ
change_outputs change = if ltb 0 change then 1 else 0

-- The counts of a prepared batch, for `payments` requested of `total`.
unfoldable pub prepared_counts : List Value → ℕ → Value → ℕ → ℕ → Result Facts
prepared_counts payments total prepared max_inputs max_outputs =
    bounded_count (get "inputCount" prepared) "Prepared batch input count" max_inputs >>= λ inputs.
    bounded_count (get "outputCount" prepared) "Prepared batch output count" max_outputs
    >>= λ outputs.
        positive_integer (get "selectedInputTotal" prepared) "Prepared batch selected input total"
        >>= λ selected.
            require (leb total selected) "Prepared batch inputs do not cover the requested total"
            >> (require (outputs == length payments + change_outputs (selected - total))
                  "Prepared compact batch output count does not match payments and change"
                >> ok (record {
                  total = total;
                  change = selected - total;
                  input_count = inputs;
                  output_count = outputs;
                  payment_count = length payments;
                  disclosure_counts =
                      count_disclosures payments
                        (record { private = 0; public = 0; recipient_encrypted = 0 });
                }))

abbrev pub requested_left : List (String × (Value × ℕ)) → Bool
requested_left [] = false
requested_left (entry ∷ by_id) = true

-- The checks of as many prepared payments as were requested.
unfoldable pub check_batch :
    (String → Option String) → String → List Value → Value → List Value → ℕ → ℕ → Result Facts
check_batch atob denom requested prepared payments max_inputs max_outputs =
    read_requested requested [] 0 >>= λ (by_id, total).
    check_prepared atob denom prepared payments by_id >>= λ left.
    require (not (requested_left left)) "Prepared batch omitted a requested payment"
    >> prepared_counts requested total prepared max_inputs max_outputs

abbrev pub elements_or_none : Value → List Value
elements_or_none v = elim (elements v) [ none ↦ [] | some vs ↦ vs ]

-- preparedBatchTransferFacts
unfoldable pub prepared_batch_transfer_facts :
    (String → Option String) → Value → Value → Value → ℕ → ℕ → Result Facts
prepared_batch_transfer_facts atob requested_payments prepared denom max_inputs max_outputs =
    let normalized_denom = text_or_empty denom in
    let requested = elements_or_none requested_payments in
    let payments = elements_or_none (get "payments" prepared) in
    require (not (is_empty normalized_denom)) "Prepared batch denom is unavailable"
    >> (require (not (length requested == 0) && length payments == length requested)
          "Prepared batch payments do not match the requested rows"
        >> check_batch atob normalized_denom requested prepared payments max_inputs max_outputs)

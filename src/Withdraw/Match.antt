-- ===== src/Withdraw/Match.antt =====
-- public/relay-withdraw-reconciliation.js: the comparison of an included transaction with the prepared
-- withdrawal.
use Prim.Native.Char.{Char}
use clairveil_samples.Js.{
  Value, bigint, boolean, end, every_char, field, get, is_empty, is_hex, is_nullish, is_object_like,
  is_text, minus_bigint, nat, neg, number, object, parse_big_int, size, string, strip_0x, text_of,
  to_lower_case, trim, ◌or_nullish◌,
}
use clairveil_samples.Prelude.{
  Bool, List, Option, Result, String, [], false, if◌then◌else◌, none, not, ok, require, some, throw,
  true, ℕ, ◌%◌, ◌&&◌, ◌/◌, ◌===◌, ◌==◌, ◌>>=◌, ◌>>◌, ◌∷◌,
}
use clairveil_samples.Withdraw.Handoff.{relay_withdraw_handoff_version, required_text}
use clairveil_samples.Withdraw.Message.{Codec, WithdrawMessage, cosmos_withdraw_message}
use Prim.Native.String.{String, [], ◌∷◌, ◌++◌ as str_append, char_at}
use Prim.Native.Char.{Char}

abbrev pub hex_char : ℕ → Char
hex_char d = char_at "0123456789abcdef" d

-- bytesHex
unfoldable pub bytes_hex : List ℕ → String
bytes_hex List.[] = []
bytes_hex (List.◌∷◌ byte bytes) = hex_char (byte / 16) ∷ hex_char (byte % 16) ∷ bytes_hex bytes

-- normalizedHex
unfoldable pub normalized_hex : Value → String → Result String
normalized_hex value label = required_text value label >>= λ required.
    let text = strip_0x (to_lower_case required) in
    require (not (is_empty text) && every_char is_hex text && size text % 2 == 0)
      (str_append label " must be even-length hex")
    >> ok text

abbrev quantity_error : {A : Type 0} → String → Result A
quantity_error label = throw (str_append label " must be a non-negative EVM quantity")

-- normalizedEvmQuantity
unfoldable pub normalized_evm_quantity : Value → String → Result ℕ
normalized_evm_quantity value label = required_text value label >>= λ text.
    elim (parse_big_int text) [ some (bigint n) ↦ ok n | _ ↦ quantity_error label ]

-- String(v ?? "").trim()
abbrev pub trimmed : Value → String
trimmed v = trim (text_of (v or_nullish string ""))

abbrev pub mismatch : String → String
mismatch label =
    str_append "relayer transaction "
      (str_append label " does not match the prepared withdraw payload")

-- assertEqual
unfoldable pub assert_equal : Value → Value → String → Result (Unit {0})
assert_equal actual expected label = require (trimmed actual === trimmed expected) (mismatch label)

-- assertEqual with caseInsensitive
unfoldable pub assert_equal_ignoring_case : Value → Value → String → Result (Unit {0})
assert_equal_ignoring_case actual expected label =
    require (to_lower_case (trimmed actual) === to_lower_case (trimmed expected)) (mismatch label)

abbrev assert_quantity : Value → String → Value → String → String → Result (Unit {0})
assert_quantity actual actual_label expected expected_label problem =
    normalized_evm_quantity actual actual_label >>= λ left.
    normalized_evm_quantity expected expected_label >>= λ right. require (left == right) problem

-- assertEvmRelayTransactionMatches
unfoldable pub assert_evm_relay_transaction_matches : Value → Value → Value → Result (Unit {0})
assert_evm_relay_transaction_matches transaction handoff_transaction expected_evm_chain_id =
    require (is_object_like transaction) "included EVM relayer transaction could not be loaded"
    >> (require (is_object_like handoff_transaction)
          "EVM relay handoff omitted its prepared transaction binding"
        >> (assert_equal_ignoring_case (get "to" transaction) (get "to" handoff_transaction)
              "target"
            >> (normalized_hex (get "input" transaction or_nullish get "data" transaction)
                  "included EVM calldata"
                >>= λ included.
                    normalized_hex
                      (get "data" handoff_transaction or_nullish get "input" handoff_transaction)
                      "prepared EVM calldata"
                    >>= λ prepared.
                        assert_equal (string included) (string prepared) "calldata"
                        >> (assert_quantity (get "value" transaction or_nullish string "0x0")
                              "included EVM value"
                              (get "value" handoff_transaction or_nullish string "0x0")
                              "prepared EVM value"
                              "relayer transaction value does not match the prepared withdraw payload"
                            >> (assert_quantity (get "chainId" transaction) "included EVM chainId"
                                  (get "chainId" handoff_transaction
                                    or_nullish expected_evm_chain_id)
                                  "prepared EVM chainId"
                                  "relayer transaction chainId does not match the prepared withdraw payload"
                                >> (if is_nullish expected_evm_chain_id
                                    then ok tt
                                    else assert_quantity (get "chainId" transaction)
                                        "included EVM chainId" expected_evm_chain_id
                                        "expected EVM chainId"
                                        "relayer transaction chainId does not match the active EVM profile"))))))

-- BigInt(v): of a number it is its integer, of a text what the text writes, and it throws otherwise.
unfoldable pub big_int : Value → Result Value
big_int (boolean b) = ok (bigint (if b then 1 else 0))
big_int (number (nat n)) = ok (bigint n)
big_int (number (neg n)) = ok (minus_bigint n)
big_int (bigint n) = ok (bigint n)
big_int (minus_bigint n) = ok (minus_bigint n)
big_int (string s) = elim (parse_big_int s) [
  | none ↦ throw "Cannot convert to a BigInt"
  | some v ↦ ok v
]
big_int _ = throw "Cannot convert to a BigInt"

abbrev pub same_big_int : Value → Value → Bool
same_big_int (bigint n) (bigint m) = n == m
same_big_int (minus_bigint n) (minus_bigint m) = n == m
same_big_int _ _ = false

-- assertCosmosRelayTransactionMatches, of the message that was read
unfoldable pub cosmos_message_matches : WithdrawMessage → Value → Result (Unit {0})
cosmos_message_matches m prepared =
    (normalized_hex (get "proof_hex" prepared) "withdraw proof" >>= λ proof.
    assert_equal (string (bytes_hex m.proof)) (string proof) "proof")
    >> ((normalized_hex (get "root_hex" prepared) "withdraw root" >>= λ root.
          assert_equal (string (bytes_hex m.root)) (string root) "root")
        >> ((normalized_hex (get "nullifier_hex" prepared) "withdraw nullifier" >>= λ nullifier.
              assert_equal (string (bytes_hex m.nullifier)) (string nullifier) "nullifier")
            >> (assert_equal m.amount (get "amount" prepared) "amount"
                >> (assert_equal m.recipient (get "recipient" prepared) "recipient"
                    >> (assert_equal m.chain_id (get "chain_id" prepared) "chain ID"
                        >> (big_int m.expires_at_unix >>= λ included.
                            big_int (get "expires_at_unix" prepared) >>= λ expiry.
                            require (same_big_int included expiry)
                              "relayer transaction expiry does not match the prepared withdraw payload"))))))

-- assertCosmosRelayTransactionMatches
unfoldable pub assert_cosmos_relay_transaction_matches :
    Codec → Option (List ℕ) → Value → Result (Unit {0})
assert_cosmos_relay_transaction_matches codec raw prepared =
    cosmos_withdraw_message codec raw >>= λ m. cosmos_message_matches m prepared

-- An included transaction: its properties, and `tx` where that is a Uint8Array.
pub record IncludedTransaction : Type 0 where
  pub properties : Value
  pub tx : Option (List ℕ)

-- assertRelayWithdrawTransactionMatches; `stringify` is JSON.stringify.
unfoldable pub assert_relay_withdraw_transaction_matches :
    Codec → (Value → String) → Value → Value → Value → IncludedTransaction → Value → Result Bool
assert_relay_withdraw_transaction_matches codec stringify transport prepared handoff_transaction
      transaction expected_evm_chain_id =
    if is_text "evm" transport
    then (assert_evm_relay_transaction_matches transaction.properties handoff_transaction
          expected_evm_chain_id
        >> ok true)
    else if is_text "cosmos" transport
    then (assert_cosmos_relay_transaction_matches codec transaction.tx prepared >> ok true)
    else throw (str_append "unsupported relay transaction transport " (stringify transport))

-- assertCosmosRelayWithdrawTransactionPayloadHash; `hash_of` is computePreparedWithdrawPayloadHash.
unfoldable pub assert_payload_hash :
    Codec → (Value → Result String) → Option (List ℕ) → Value → Result Bool
assert_payload_hash codec hash_of raw payload_hash =
    normalized_hex payload_hash "reserved relay payload hash" >>= λ reserved.
    require (size reserved == 64) "reserved relay payload hash must be 32 bytes"
    >> (cosmos_withdraw_message codec raw >>= λ m.
        hash_of (
          object (
            field "version" (string relay_withdraw_handoff_version) (
              field "proof_hex" (string (bytes_hex m.proof)) (
                field "root_hex" (string (bytes_hex m.root)) (
                  field "nullifier_hex" (string (bytes_hex m.nullifier)) (
                    field "amount" m.amount (
                      field "recipient" m.recipient (
                        field "chain_id" m.chain_id
                          (field "expires_at_unix" m.expires_at_unix end)))))))))
        >>= λ included.
            require (included === reserved)
              "included Cosmos relayer transaction does not match the reserved payload hash"
            >> ok true)

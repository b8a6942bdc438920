-- ===== src/Withdraw/Message.antt =====
-- public/relay-withdraw-reconciliation.js: the one MsgWithdraw of an included Cosmos transaction.
use clairveil_samples.Js.{Value, message}
use clairveil_samples.Prelude.{
  Bool, List, Option, Result, String, [], keep, none, ok, some, throw, ℕ, ◌&&◌, ◌===◌, ◌==◌, ◌>>=◌,
  ◌∷◌,
}
use clairveil_samples.Withdraw.Fields.{Field, protobuf_fields}

-- A decoded MsgWithdraw of the clairveiljs package.
pub record WithdrawMessage : Type 0 where
  pub proof : List ℕ
  pub root : List ℕ
  pub nullifier : List ℕ
  pub amount : Value
  pub recipient : Value
  pub chain_id : Value
  pub expires_at_unix : Value

abbrev pub is_delimited : ℕ → Field → Bool
is_delimited k f = f.field_number == k && f.wire_type == 2

abbrev pub only_value : List Field → String → Result (List ℕ)
only_value (f ∷ []) label = ok f.value
only_value _ label = throw (message (label ∷ " must appear exactly once" ∷ []))

-- requiredLengthDelimitedField
unfoldable pub required_length_delimited_field : List Field → ℕ → String → Result (List ℕ)
required_length_delimited_field fields k label = only_value (keep (is_delimited k) fields) label

pub record AnyMessage : Type 0 where
  pub type_url : String
  pub value : List ℕ

-- What the function takes from its libraries: a TextDecoder, the type URL of MsgWithdraw, and its
-- decoder, which may throw.
pub record Codec : Type 0 where
  pub decode_text : List ℕ → String
  pub withdraw_type_url : String
  pub decode_withdraw : List ℕ → Result WithdrawMessage

unfoldable pub read_any : Codec → Field → Result AnyMessage
read_any codec f = protobuf_fields f.value "Cosmos message Any" >>= λ fields.
    required_length_delimited_field fields 1 "Any type_url" >>= λ url.
    required_length_delimited_field fields 2 "Any value" >>= λ content.
    ok (record { type_url = codec.decode_text url; value = content })

unfoldable pub read_messages : Codec → List Field → Result (List AnyMessage)
unfolding read_any
read_messages codec [] = ok []
read_messages codec (f ∷ fs) =
    read_any codec f >>= λ m. read_messages codec fs >>= λ ms. ok (m ∷ ms)

abbrev pub not_one : Result WithdrawMessage
not_one = throw "included Cosmos transaction must contain exactly one MsgWithdraw"

abbrev pub is_withdrawal : Codec → AnyMessage → Bool
is_withdrawal codec m = m.type_url === codec.withdraw_type_url

-- The messages are one, which is a withdrawal.
abbrev pub only_withdrawal : Codec → List AnyMessage → List AnyMessage → Result WithdrawMessage
only_withdrawal codec (m ∷ []) (w ∷ []) = codec.decode_withdraw w.value
only_withdrawal codec _ _ = not_one

-- cosmosWithdrawMessage, of the raw bytes of the transaction where they are a Uint8Array
unfoldable pub cosmos_withdraw_message : Codec → Option (List ℕ) → Result WithdrawMessage
cosmos_withdraw_message codec none =
    throw "included Cosmos transaction omitted raw transaction bytes"
cosmos_withdraw_message codec (some []) =
    throw "included Cosmos transaction omitted raw transaction bytes"
cosmos_withdraw_message codec (some (byte ∷ bytes)) =
    protobuf_fields (byte ∷ bytes) "Cosmos TxRaw" >>= λ raw_fields.
    required_length_delimited_field raw_fields 1 "TxRaw body_bytes" >>= λ body.
    protobuf_fields body "Cosmos TxBody" >>= λ body_fields.
    read_messages codec (keep (is_delimited 1) body_fields) >>= λ messages.
    only_withdrawal codec messages (keep (is_withdrawal codec) messages)

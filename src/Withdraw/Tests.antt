-- ===== src/Withdraw/Tests.antt =====
-- Runs of the reading of transactions, and the theorems at concrete inputs.
use clairveil_samples.Js.{
  Value, bigint, decimal_after, decimal_before, end, every_char, field, get, get_field, is_space,
  lower_char, nat, number, number_text, object, parse_big_int, signed_big_int, size, string,
  strip_0x, text_of, text_or_empty, to_decimal, to_lower_case, trim, trim_end, trim_start, truthy,
  undefined,
}
use clairveil_samples.Prelude.{All, List, [], arith, ok, refl, some, ℕ, ◌↔◌, ◌∷◌, ◌≡◌}
use clairveil_samples.Withdraw.Determined.{IsBytes, matching_messages_agree}
use clairveil_samples.Withdraw.Fields.{fields_rounds, fields_rounds_enough, protobuf_fields}
use clairveil_samples.Withdraw.Handoff.{
  create_relay_withdraw_handoff, handoff_payload-create, relay_withdraw_handoff_payload,
  required_text,
}
use clairveil_samples.Withdraw.Included.{
  Packed, any_entries, body_entries, cosmos_withdraw_message_iff, message_entry, raw_entries,
}
use clairveil_samples.Withdraw.Match.{
  assert_equal, big_int, bytes_hex, cosmos_message_matches, normalized_hex,
}
use clairveil_samples.Withdraw.Message.{Codec, WithdrawMessage, cosmos_withdraw_message}
use clairveil_samples.Withdraw.Varint.{varint}
use clairveil_samples.Withdraw.Wire.{
  IsWireEntry, WireEntry, bytes_entry, entry_fields, narrow_entry, payload, protobuf_fields-written,
  varint_entry, wide_entry, written, written_all,
}

-- A message that carries its proof only.
abbrev proof_message : List ℕ → WithdrawMessage
proof_message bytes = record {
  proof = bytes;
  root = 7 ∷ [];
  nullifier = 255 ∷ 16 ∷ [];
  amount = string "5";
  recipient = string "clair1x";
  chain_id = string "clair-1";
  expires_at_unix = bigint 1700000000;
}

abbrev test_codec : Codec
test_codec = record {
  decode_text = bytes_hex;
  withdraw_type_url = "2f77";
  decode_withdraw = λ bytes. ok (proof_message bytes);
}

abbrev packed : Packed
packed = record { url = 0x2f ∷ 0x77 ∷ []; content = 1 ∷ 2 ∷ 3 ∷ [] }

abbrev memo : List WireEntry
memo = bytes_entry 2 (104 ∷ 105 ∷ []) ∷ varint_entry 3 300 ∷ []

abbrev auth : List WireEntry
auth = bytes_entry 2 (9 ∷ []) ∷ narrow_entry 5 (1 ∷ 2 ∷ 3 ∷ 4 ∷ []) ∷ bytes_entry 3 [] ∷ []

abbrev mixed : List WireEntry
mixed =
    varint_entry 1 300
    ∷ bytes_entry 2 (10 ∷ 20 ∷ [])
    ∷ wide_entry 20 (1 ∷ 2 ∷ 3 ∷ 4 ∷ 5 ∷ 6 ∷ 7 ∷ 8 ∷ [])
    ∷ []

writes_mixed :
    written_all mixed
    ≡ 8 ∷ 172 ∷ 2 ∷ 18 ∷ 2 ∷ 10 ∷ 20 ∷ 161 ∷ 1 ∷ 1 ∷ 2 ∷ 3 ∷ 4 ∷ 5 ∷ 6 ∷ 7 ∷ 8 ∷ []
unfolding written_all written payload varint
writes_mixed = refl

protobuf_fields-written_example :
    protobuf_fields (written_all mixed) "test" ≡ ok (entry_fields mixed)
protobuf_fields-written_example = protobuf_fields-written mixed "test" (omega arith)

fields_rounds_enough_example :
    fields_rounds 4 (18 ∷ 2 ∷ 10 ∷ 20 ∷ []) "test" ≡ fields_rounds 9 (18 ∷ 2 ∷ 10 ∷ 20 ∷ []) "test"
fields_rounds_enough_example =
    fields_rounds_enough 4 9 (18 ∷ 2 ∷ 10 ∷ 20 ∷ []) "test" (omega arith) (omega arith)

cosmos_withdraw_message_iff_example :
    (cosmos_withdraw_message test_codec (some (written_all (raw_entries (packed ∷ []) memo auth)))
      ≡ ok (proof_message (1 ∷ 2 ∷ 3 ∷ [])))
    ↔ ((p : Packed) × (packed ∷ [] ≡ p ∷ [])
        × (bytes_hex p.url ≡ "2f77")
        × (ok (proof_message p.content) ≡ ok (proof_message (1 ∷ 2 ∷ 3 ∷ []))))
cosmos_withdraw_message_iff_example =
    cosmos_withdraw_message_iff test_codec (packed ∷ []) memo auth (proof_message (1 ∷ 2 ∷ 3 ∷ []))
      packed_fits body_fits raw_fits refl refl
  where
    packed_fits : All (λ p. All IsWireEntry (any_entries p)) (packed ∷ [])
    packed_fits = omega arith

    body_fits : All IsWireEntry (body_entries (packed ∷ []) memo)
    body_fits = unfold message_entry written_all written payload varint in omega arith

    raw_fits : All IsWireEntry (raw_entries (packed ∷ []) memo auth)
    raw_fits = unfold message_entry written_all written payload varint in omega arith

abbrev prepared : Value
prepared = object (
    field "proof_hex" (string "0x0102") (
      field "root_hex" (string "07") (
        field "nullifier_hex" (string "FF10") (
          field "amount" (string "5") (
            field "recipient" (string "clair1x") (
              field "chain_id" (string "clair-1")
                (field "expires_at_unix" (string "1700000000") end)))))))

matches_prepared : cosmos_message_matches (proof_message (1 ∷ 2 ∷ [])) prepared ≡ ok tt
unfolding cosmos_message_matches normalized_hex required_text bytes_hex assert_equal big_int
    parse_big_int trim trim_start trim_end is_space text_of strip_0x to_lower_case lower_char
    every_char size get get_field signed_big_int to_decimal decimal_before decimal_after
matches_prepared = refl

first-IsBytes : IsBytes (proof_message (1 ∷ 2 ∷ []))
first-IsBytes = record { proof = omega arith; root = omega arith; nullifier = omega arith }

-- Another message for it, whose recipient and amount are written with spaces.
abbrev spaced_message : WithdrawMessage
spaced_message = record {
  proof = 1 ∷ 2 ∷ [];
  root = 7 ∷ [];
  nullifier = 255 ∷ 16 ∷ [];
  amount = number (nat 5);
  recipient = string " clair1x ";
  chain_id = string "clair-1";
  expires_at_unix = number (nat 1700000000);
}

spaced_matches : cosmos_message_matches spaced_message prepared ≡ ok tt
unfolding cosmos_message_matches normalized_hex required_text bytes_hex assert_equal big_int
    parse_big_int trim trim_start trim_end is_space text_of strip_0x to_lower_case lower_char
    every_char size get get_field signed_big_int to_decimal decimal_before decimal_after number_text
spaced_matches = refl

spaced-IsBytes : IsBytes spaced_message
spaced-IsBytes = record { proof = omega arith; root = omega arith; nullifier = omega arith }

matching_messages_agree_example :
    ((proof_message (1 ∷ 2 ∷ [])).proof ≡ spaced_message.proof)
    × ((proof_message (1 ∷ 2 ∷ [])).root ≡ spaced_message.root)
    × ((proof_message (1 ∷ 2 ∷ [])).nullifier ≡ spaced_message.nullifier)
matching_messages_agree_example =
    matching_messages_agree (proof_message (1 ∷ 2 ∷ [])) spaced_message prepared first-IsBytes
      spaced-IsBytes matches_prepared spaced_matches

abbrev prepared_v2 : Value
prepared_v2 = object (field "version" (string "v2") end)

abbrev handoff_v2 : Value
handoff_v2 = object (
    field "schema_version" (string "v2") (
      field "handoff_version" (string "v2") (
        field "profile_id" (string "local") (
          field "transport" (string "evm") (
            field "request"
              (object (field "version" (string "v2") (field "payload" prepared_v2 end))) end)))))

creates_handoff :
    create_relay_withdraw_handoff text_of (string "local") (string "evm") prepared_v2 undefined
    ≡ ok handoff_v2
unfolding create_relay_withdraw_handoff text_of text_or_empty truthy get get_field
creates_handoff = refl

handoff_payload-create_example : relay_withdraw_handoff_payload handoff_v2 ≡ ok prepared_v2
handoff_payload-create_example =
    handoff_payload-create text_of (string "local") (string "evm") prepared_v2 undefined handoff_v2
      creates_handoff

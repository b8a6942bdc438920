-- ===== src/Fees/Tests.antt =====
-- Runs of fees, funding and nonces, and the theorems at concrete inputs.
use clairveil_samples.Fees.Charged.{
  attribute_value, cosmos_charged_fee_amount, event_attribute, in_denom, is_denom,
  normalize_keeps_amount, normalize_leading_zero_minimal_denom_amount, parse_coin, parse_coin_list,
  parse_coins, split_commas, sum_attributes,
}
use clairveil_samples.Fees.Cosmos.{
  Least, canonical_gas_limit, cosmos_gas_fee_amount, cosmos_gas_fee_amount-Least, decimal_parts,
  decimal_rational, exponent_part, point_part, rational_of, rounded_up, scaled_rational,
}
use clairveil_samples.Fees.Funding.{
  Deposit, Funded, assert_deposit_funding_available, canonical_amount, deposit_funding_iff, fund,
  split_funding,
}
use clairveil_samples.Fees.Nonce.{
  NodeAnswers, Unused, hex_nonce, is_account, is_padded, nonce_quantity, public_evm_nonce,
  public_evm_nonce-Unused,
}
use clairveil_samples.Js.{
  Value, array, cons, decimal_after, decimal_before, elements, end, every_char, field, get,
  get_field, hex_after, is_canonical_decimal, is_digit, is_positive_decimal, is_space, items,
  lower_char, nat, nil, null, number, number_text, object, size, split_digits, string, strip_0x,
  text_of, text_or_empty, to_decimal, to_lower_case, trim, trim_end, trim_start, truthy, undefined,
}
use clairveil_samples.Prelude.{ok, refl, some, true, ◌↔◌, ◌≡◌}

fee_of_gas : cosmos_gas_fee_amount (string "0.025") (number (nat 100001)) ≡ ok 2501
unfolding cosmos_gas_fee_amount canonical_gas_limit decimal_rational decimal_parts rational_of
    scaled_rational rounded_up point_part exponent_part split_digits is_canonical_decimal
    is_positive_decimal every_char trim trim_start trim_end is_space text_of number_text to_decimal
    decimal_before decimal_after size
fee_of_gas = refl

cosmos_gas_fee_amount-Least_example : Least (string "0.025") (number (nat 100001)) 2501
cosmos_gas_fee_amount-Least_example =
    cosmos_gas_fee_amount-Least (string "0.025") (number (nat 100001)) 2501 fee_of_gas

fee_with_exponent :
    decimal_rational (string "12.5e-1") "price" ≡ ok (record { numerator = 125; denominator = 100 })
unfolding decimal_rational decimal_parts rational_of scaled_rational point_part exponent_part
    split_digits is_canonical_decimal is_positive_decimal every_char trim trim_start trim_end
    is_space text_of decimal_after size
fee_with_exponent = refl

abbrev evm_deposit : Deposit
evm_deposit = record {
  amount = string "70";
  fee = undefined;
  asset_balance = string "70";
  native_balance = string "0";
  asset_denom = string "usdc";
  native_denom = string "eth";
  transport = string "evm";
}

funds_deposit : assert_deposit_funding_available evm_deposit ≡ ok (split_funding 70 0 70 0)
unfolding assert_deposit_funding_available canonical_amount fund is_canonical_decimal
    is_positive_decimal every_char trim trim_start trim_end is_space text_of decimal_after
funds_deposit = refl

deposit_funding_iff_example :
    (assert_deposit_funding_available evm_deposit ≡ ok (split_funding 70 0 70 0))
    ↔ Funded evm_deposit (split_funding 70 0 70 0)
deposit_funding_iff_example = deposit_funding_iff evm_deposit (split_funding 70 0 70 0)

abbrev node : NodeAnswers
node = record {
  network_before = ok tt;
  latest = ok (string "0x1f");
  pending = ok (string "0x20");
  network_after = ok tt;
}

abbrev transaction : Value
transaction =
    object
      (field "from" (string "0xAbcdefabcdefabcdefabcdefabcdefabcdefabcd") (field "nonce" null end))

settles_on_next : public_evm_nonce node transaction ≡ ok 32
unfolding public_evm_nonce is_account nonce_quantity hex_nonce is_padded to_lower_case lower_char
    strip_0x every_char size hex_after text_or_empty text_of truthy get get_field
settles_on_next = refl

public_evm_nonce-Unused_example : Unused node transaction 32
public_evm_nonce-Unused_example = public_evm_nonce-Unused node transaction 32 settles_on_next

zeros_are_digits : every_char is_digit "00420" ≡ true
unfolding every_char
zeros_are_digits = refl

normalize_keeps_amount_example :
    (is_canonical_decimal (normalize_leading_zero_minimal_denom_amount (string "00420")) ≡ true)
    × (decimal_after 0 (normalize_leading_zero_minimal_denom_amount (string "00420"))
        ≡ decimal_after 0 "00420")
normalize_keeps_amount_example = normalize_keeps_amount "00420" refl zeros_are_digits

charges_fee :
    cosmos_charged_fee_amount
      (object (
        field "events"
          (array (
            cons
              (object (
                field "type" (string "tx") (
                  field "attributes"
                    (array (
                      cons
                        (object (
                          field "key"
                            (string "fee")
                            (field "value" (string "25uclair, 3uatom") end)))
                        nil))
                    end)))
              nil))
          end))
      "uclair"
    ≡ some 25
unfolding cosmos_charged_fee_amount event_attribute attribute_value sum_attributes parse_coin_list
    parse_coins parse_coin split_commas split_digits in_denom elements items get get_field is_denom
    is_canonical_decimal is_positive_decimal every_char trim trim_start trim_end is_space
    text_or_empty text_of truthy decimal_after
charges_fee = refl

-- ===== src/Fees/Charged.antt =====
-- public/network-fee.js: the fee that a chain charged; public/minimal-denom-input.js.
use Prim.Native.String.{String, [], ◌∷◌}
use Prim.Native.Char.{code}
use Prim.Native.Nat.{digits}
use clairveil_samples.Js.{
  Value, bigint, decimal_after, elements, every_char, get, hex_after, is_canonical_decimal,
  is_digit, is_empty, is_hex, is_nullish, is_positive_decimal, is_text, minus_bigint, null, number,
  safe_nat, split_digits, string, strip_0x, text_of, text_or_empty, to_lower_case, trim,
  ◌or_nullish◌,
}
use clairveil_samples.Prelude.{
  Bool, Bool-cases, List, Option, and-eq-true, arith, false, if◌then◌else◌, inl, inr, keep, leb,
  none, not, refl, some, some_of, true, ℕ, ◌&&◌, ◌*◌, ◌+◌, ◌===◌, ◌==◌, ◌||◌, ◌≡◌,
}
use clairveil_samples.Tasks.Invariant.{total}

-- eventAttribute; null where no attribute has the key or its value is nullish.
unfoldable pub attribute_value : String → List Value → Value
attribute_value key List.[] = null
attribute_value key (List.◌∷◌ a rest) =
    let later = attribute_value key rest in
    if is_text key (get "key" a) then get "value" a or_nullish null else later

unfoldable pub event_attribute : Value → String → Value
unfolding attribute_value
event_attribute event key = elim (elements (get "attributes" event)) [
  | none ↦ null
  | some attributes ↦ attribute_value key attributes
]

abbrev is_letter : ℕ → Bool
is_letter c = leb b'A' c && leb c b'Z' || leb b'a' c && leb c b'z'

abbrev is_denom_char : ℕ → Bool
is_denom_char c =
    is_letter c || is_digit c || c == b'/' || c == b':' || c == b'.' || c == b'_' || c == b'-'

-- [A-Za-z][A-Za-z0-9/:._-]*
unfoldable pub is_denom : String → Bool
unfolding every_char
is_denom [] = false
is_denom (c ∷ s) = is_letter (code c) && every_char is_denom_char s

pub record CoinAmount : Type 0 where
  pub amount : ℕ
  pub denom : String

-- /^(0|[1-9][0-9]*)([A-Za-z][A-Za-z0-9/:._-]*)$/, of a trimmed entry
unfoldable pub parse_coin : String → Option CoinAmount
unfolding split_digits
parse_coin text =
    let (digits, denom) = split_digits text in
    if is_canonical_decimal digits && is_denom denom
    then some (record { amount = decimal_after 0 digits; denom = denom })
    else none

-- `.split(",")`
unfoldable pub split_commas : String → List String
split_commas [] = List.◌∷◌ [] List.[]
split_commas (c ∷ s) =
    let rest = split_commas s in
    if code c == b',' then List.◌∷◌ [] rest else elim rest [
      | List.[] ↦ List.◌∷◌ (c ∷ []) List.[]
      | List.◌∷◌ word words ↦ List.◌∷◌ (c ∷ word) words
    ]

unfoldable pub parse_coins : List String → Option (List CoinAmount)
unfolding parse_coin
parse_coins List.[] = some List.[]
parse_coins (List.◌∷◌ entry entries) = elim (parse_coin (trim entry)) [
  | none ↦ none
  | some coin ↦ elim (parse_coins entries) [ none ↦ none | some coins ↦ some (List.◌∷◌ coin coins) ]
]

-- parseCoinList
unfoldable pub parse_coin_list : Value → Option (List CoinAmount)
parse_coin_list v =
    if is_empty (trim (text_of (v or_nullish string "")))
    then some List.[]
    else parse_coins (split_commas (text_or_empty v))

-- What the coins are worth in the denomination.
unfoldable pub in_denom : String → List CoinAmount → ℕ
in_denom denom List.[] = 0
in_denom denom (List.◌∷◌ coin coins) =
    let rest = in_denom denom coins in if coin.denom === denom then coin.amount + rest else rest

abbrev is_nullish_value : Value → Bool
is_nullish_value v = is_nullish v

abbrev pub is_fee_event : Value → Bool
is_fee_event event =
    is_text "tx" (get "type" event) && not (is_nullish_value (event_attribute event "fee"))

-- A spending that no message made.
abbrev pub is_ante_spending : Value → Bool
is_ante_spending event =
    is_text "coin_spent" (get "type" event) && is_nullish_value (event_attribute event "msg_index")

-- The sum over the attribute of each event, or nothing where one cannot be read.
unfoldable pub sum_attributes : String → String → List Value → Option ℕ
unfolding in_denom
sum_attributes denom key List.[] = some 0
sum_attributes denom key (List.◌∷◌ event events) =
    elim (parse_coin_list (event_attribute event key)) [
      | none ↦ none
      | some coins ↦ elim (sum_attributes denom key events) [
        | none ↦ none
        | some total ↦ some (in_denom denom coins + total)
      ]
    ]

-- cosmosChargedFeeAmount
unfoldable pub cosmos_charged_fee_amount : Value → String → Option ℕ
cosmos_charged_fee_amount tx denom =
    elim (elements (get "events" tx or_nullish get "events" (get "tx_response" tx))) [
      | none ↦ none
      | some events ↦
          if some_of is_fee_event events
          then sum_attributes denom "fee" (keep is_fee_event events)
          else sum_attributes denom "amount" (keep is_ante_spending events)
    ]

-- /^(?:0x[0-9a-fA-F]+|0|[1-9][0-9]*)$/; a prefix is lower case.
unfoldable pub quantity_text : String → Option ℕ
unfolding every_char hex_after
quantity_text text =
    let hex = strip_0x text in
    if is_canonical_decimal text
    then some (decimal_after 0 text)
    else if not (hex === text) && not (is_empty hex) && every_char is_hex (to_lower_case hex)
    then some (hex_after 0 (to_lower_case hex))
    else none

-- evmQuantity
unfoldable pub evm_quantity : Value → Option ℕ
evm_quantity (bigint n) = some n
evm_quantity (minus_bigint n) = none
evm_quantity (number n) = safe_nat n
evm_quantity v = quantity_text (trim (text_of (v or_nullish string "")))

abbrev both_times : Option ℕ → Option ℕ → Option ℕ
both_times (some used) (some price) = some (used * price)
both_times _ _ = none

-- evmChargedFeeAmount
unfoldable pub evm_charged_fee_amount : Value → Option ℕ
evm_charged_fee_amount receipt =
    both_times (evm_quantity (get "gasUsed" receipt or_nullish get "gas_used" receipt)) (
      evm_quantity (
        get "effectiveGasPrice" receipt
        or_nullish get "effective_gas_price" receipt
        or_nullish get "gasPrice" receipt
        or_nullish get "gas_price" receipt))

-- `.replace(/^0+(?=\d)/, "")`, of digits
unfoldable pub strip_zeros : String → String
strip_zeros [] = []
strip_zeros (c ∷ s) =
    let rest = strip_zeros s in if code c == b'0' && not (is_empty s) then rest else c ∷ s

-- normalizeLeadingZeroMinimalDenomAmount
unfoldable pub normalize_leading_zero_minimal_denom_amount : Value → String
normalize_leading_zero_minimal_denom_amount v =
    let text = text_of (v or_nullish string "") in
    if not (is_empty text) && every_char is_digit text then strip_zeros text else text

strip_zeros-decimal_after : (s : String) → decimal_after 0 (strip_zeros s) ≡ decimal_after 0 s
unfolding strip_zeros decimal_after
strip_zeros-decimal_after [] = refl
strip_zeros-decimal_after (c ∷ s) = elim (Bool-cases (code c == b'0' && not (is_empty s))) [
  | inl e ↦
      let zero_first : code c ≡ b'0' = ground (arith, e) in
      rw (e, zero_first) (strip_zeros-decimal_after s)
  | inr e ↦ rw e refl
]

strip_zeros-is_canonical_decimal :
    (s : String)
    → is_empty s ≡ false
    → every_char is_digit s ≡ true
    → is_canonical_decimal (strip_zeros s) ≡ true
unfolding strip_zeros is_canonical_decimal is_positive_decimal every_char
strip_zeros-is_canonical_decimal [] h k = cc
strip_zeros-is_canonical_decimal (c ∷ s) h k =
    let (digit_first, digits) = and-eq-true (is_digit (code c)) (every_char is_digit s) k in
    elim (Bool-cases (code c == b'0' && not (is_empty s))) [
      | inl e ↦ rw e (strip_zeros-is_canonical_decimal s (ground (arith, e)) digits)
      | inr e ↦ rw e (ground (arith, e, digit_first, digits))
    ]

-- A text of digits is normalized to the canonical decimal of the same number.
pub normalize_keeps_amount :
    (text : String)
    → is_empty text ≡ false
    → every_char is_digit text ≡ true
    → (is_canonical_decimal (normalize_leading_zero_minimal_denom_amount (string text)) ≡ true)
      × (decimal_after 0 (normalize_leading_zero_minimal_denom_amount (string text))
          ≡ decimal_after 0 text)
unfolding normalize_leading_zero_minimal_denom_amount text_of
normalize_keeps_amount text h k =
    rw (h, k) (strip_zeros-is_canonical_decimal text h k, strip_zeros-decimal_after text)

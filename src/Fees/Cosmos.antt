-- ===== src/Fees/Cosmos.antt =====
-- public/cosmos-fee.js: the fee of a Cosmos transaction.
use Prim.Native.String.{String, [], ◌∷◌, ◌++◌ as str_append}
use Prim.Native.Char.{code}
use Prim.Native.Nat.{digits}
use clairveil_samples.Js.{
  Value, bigint, decimal_after, every_char, is_canonical_decimal, is_digit, is_empty, minus_bigint,
  size, split_digits, string, text_of, text_or_empty, to_decimal, trim, ◌or_nullish◌,
}
use clairveil_samples.Prelude.{
  >>=-eq-ok, Bool, Bool-cases, List, Option, Result, arith, false, if◌then◌else◌, inl, inr, leb,
  none, not, ok, ok_injective, require, requiring, some, subst, throw, ℕ, ◌&&◌, ◌*◌, ◌+◌, ◌-◌, ◌/◌,
  ◌<◌, ◌==◌, ◌>>=◌, ◌>>◌, ◌^◌, ◌||◌, ◌≡◌, ◌≤◌,
}
use native.Mathlib.Nat.{div-add-mod', mod-lt, one-le-pow}

pub record Rational : Type 0 where
  pub numerator : ℕ
  pub denominator : ℕ

-- What a decimal is written as: digits, digits after the point, and the sign and digits of the exponent.
pub record DecimalParts : Type 0 where
  pub whole : String
  pub part : String
  pub minus : Bool
  pub exponent_digits : String

-- `(?:\.([0-9]+))?`: the digits after the point, and what follows.
unfoldable pub point_part : String → Option (String × String)
point_part [] = some ([], [])
point_part (c ∷ s) =
    let (digits, rest) = split_digits s in
    if code c == b'.'
    then (if is_empty digits then none else some (digits, rest))
    else some ([], c ∷ s)

-- `(?:[eE]([+-]?[0-9]+))?$`
unfoldable pub exponent_part : String → Option (Bool × String)
exponent_part [] = some (false, [])
exponent_part (c ∷ []) = none
exponent_part (c ∷ d ∷ s) =
    let minus = code d == b'-' in
    let digits = if minus || code d == b'+' then s else d ∷ s in
    if (code c == b'e' || code c == b'E') && not (is_empty digits) && every_char is_digit digits
    then some (minus, digits)
    else none

-- /^(0|[1-9][0-9]*)(?:\.([0-9]+))?(?:[eE]([+-]?[0-9]+))?$/
unfoldable pub decimal_parts : String → Option DecimalParts
decimal_parts text =
    let (whole, rest) = split_digits text in
    if not (is_canonical_decimal whole) then none else elim (point_part rest) [
      | none ↦ none
      | some (part, tail) ↦ elim (exponent_part tail) [
        | none ↦ none
        | some (minus, digits) ↦
            some (record { whole = whole; part = part; minus = minus; exponent_digits = digits })
      ]
    ]

-- The digits times 10 to the exponent, over 10 to the number of digits after the point.
unfoldable pub scaled_rational : ℕ → ℕ → Bool → ℕ → Rational
scaled_rational digits places minus exponent =
    let scale = if minus then places + exponent else places - exponent in
    let up = if minus then 0 else exponent - places in
    if scale == 0
    then record { numerator = digits * 10 ^ up; denominator = 1 }
    else record { numerator = digits; denominator = 10 ^ scale }

abbrev exponent_of : DecimalParts → ℕ
exponent_of d = decimal_after 0 d.exponent_digits

unfoldable pub rational_of : Option DecimalParts → String → Result Rational
rational_of none label = throw (str_append label " must be a non-negative decimal")
rational_of (some d) label =
    require (leb (exponent_of d) 1000) (str_append label " exponent is outside the supported range")
    >> ok (
        scaled_rational (decimal_after 0 (str_append d.whole d.part)) (size d.part) d.minus
          (exponent_of d))

-- decimalRational
unfoldable pub decimal_rational : Value → String → Result Rational
unfolding decimal_parts
decimal_rational value label =
    rational_of (decimal_parts (trim (text_of (value or_nullish string "")))) label

-- canonicalGasLimit
unfoldable pub canonical_gas_limit : Value → Result ℕ
canonical_gas_limit (bigint n) = ok n
canonical_gas_limit (minus_bigint n) = throw "Cosmos gas limit must be non-negative"
canonical_gas_limit v =
    let text = trim (text_of (v or_nullish string "")) in
    require (is_canonical_decimal text) "Cosmos gas limit must be a canonical non-negative integer"
    >> ok (decimal_after 0 text)

-- The least whole number that is not below gas * price.
unfoldable pub rounded_up : ℕ → Rational → ℕ
rounded_up gas r =
    let product = gas * r.numerator in
    if product == 0 then 0 else (product + r.denominator - 1) / r.denominator

-- cosmosGasFeeAmount
unfoldable pub cosmos_gas_fee_amount : Value → Value → Result ℕ
cosmos_gas_fee_amount gas_price gas_limit = canonical_gas_limit gas_limit >>= λ gas.
    decimal_rational gas_price "Cosmos gas price" >>= λ price. ok (rounded_up gas price)

pub record Coin : Type 0 where
  pub denom : String
  pub amount : String

-- deterministicCosmosFeeAmount
unfoldable pub deterministic_cosmos_fee_amount : Value → Value → Value → Result (List Coin)
deterministic_cosmos_fee_amount gas_price gas_limit denom =
    let normalized = trim (text_or_empty denom) in
    require (not (is_empty normalized)) "Cosmos fee denom is required"
    >> (cosmos_gas_fee_amount gas_price gas_limit >>= λ fee.
        ok (List.◌∷◌ (record { denom = normalized; amount = to_decimal fee }) List.[]))

positive_power : (n : ℕ) → 0 < 10 ^ n
positive_power n = one-le-pow n 10 (omega arith)

scaled_rational-positive :
    (digits places : ℕ) (minus : Bool) (exponent : ℕ)
    → 0 < (scaled_rational digits places minus exponent).denominator
unfolding scaled_rational
scaled_rational-positive digits places minus exponent =
    elim (Bool-cases ((if minus then places + exponent else places - exponent) == 0)) [
      | inl e ↦ rw e (omega arith)
      | inr e ↦ rw e (positive_power (if minus then places + exponent else places - exponent))
    ]

covering :
    (product d : ℕ)
    → 0 < product
    → 0 < d
    → (product ≤ (product + d - 1) / d * d) × ((product + d - 1) / d * d < product + d)
covering product d h k = omega (arith, div-add-mod' (product + d - 1) d, mod-lt (product + d - 1) k)

-- The fee covers gas * price, and one less would not.
rounded_up-Least :
    (gas : ℕ) (r : Rational)
    → 0 < r.denominator
    → (gas * r.numerator ≤ rounded_up gas r * r.denominator)
      × (rounded_up gas r * r.denominator < gas * r.numerator + r.denominator)
unfolding rounded_up
rounded_up-Least gas r h = elim (Bool-cases (gas * r.numerator == 0)) [
  | inl e ↦ rw e (ground (arith, e, h))
  | inr e ↦ rw e (covering (gas * r.numerator) r.denominator (ground (arith, e)) h)
]

-- The fee of a gas limit at a price: the price is read as a rational, and the fee is the least that
-- covers their product.
pub record Least (gas_price gas_limit : Value) (fee : ℕ) : Type 0 where
  pub gas : ℕ
  pub price : Rational
  pub limit_read : canonical_gas_limit gas_limit ≡ ok gas
  pub price_read : decimal_rational gas_price "Cosmos gas price" ≡ ok price
  pub whole : 0 < price.denominator
  pub covers : gas * price.numerator ≤ fee * price.denominator
  pub least : fee * price.denominator < gas * price.numerator + price.denominator

rational_of-positive :
    (parts : Option DecimalParts) (label : String) (r : Rational)
    → rational_of parts label ≡ ok r
    → 0 < r.denominator
unfolding rational_of
rational_of-positive none label r h = cc
rational_of-positive (some d) label r h =
    let (small, k) = requiring (leb (exponent_of d) 1000) _ _ h in
    subst (λ (x : Rational). 0 < x.denominator) (ok_injective k)
      (scaled_rational-positive (decimal_after 0 (str_append d.whole d.part)) (size d.part) d.minus
        (exponent_of d))

decimal_rational-positive :
    (value : Value) (label : String) (r : Rational)
    → decimal_rational value label ≡ ok r
    → 0 < r.denominator
unfolding decimal_rational
decimal_rational-positive value label r h =
    rational_of-positive (decimal_parts (trim (text_of (value or_nullish string "")))) label r h

-- Where a fee is given, the limit and the price were read, and the fee is the least whole amount that
-- covers the gas at the price.
pub cosmos_gas_fee_amount-Least :
    (gas_price gas_limit : Value) (fee : ℕ)
    → cosmos_gas_fee_amount gas_price gas_limit ≡ ok fee
    → Least gas_price gas_limit fee
unfolding cosmos_gas_fee_amount
cosmos_gas_fee_amount-Least gas_price gas_limit fee h =
    let (gas, read, h₁) = >>=-eq-ok (canonical_gas_limit gas_limit) _ h in
    let (price, given_, h₂) = >>=-eq-ok (decimal_rational gas_price "Cosmos gas price") _ h₁ in
    let positive = decimal_rational-positive gas_price "Cosmos gas price" price given_ in
    let (low, high) = rounded_up-Least gas price positive in
    subst (Least gas_price gas_limit) (ok_injective h₂) (record {
      gas = gas;
      price = price;
      limit_read = read;
      price_read = given_;
      whole = positive;
      covers = low;
      least = high;
    })

-- ===== src/Batch/Amounts.antt =====
-- Amounts, counts and identities as the batch code reads them.
use clairveil_samples.Js.{
  Value, bigint, message, minus_bigint, parse_big_int, safe_nat, strip_0x, text_of, text_or_empty,
  to_decimal, to_lower_case, to_number, trim,
}
use clairveil_samples.Prelude.{
  Option-cases, Result, String, [], arith, if◌then◌else◌, inl, inr, ltb, none, ok, some, throw, ℕ,
  ◌||◌, ◌∷◌, ◌≡◌, ◌≤◌,
}

-- What BigInt(String(value)) throws on a text that is no integer.
abbrev not_big_int : String → String
not_big_int text = message ("Cannot convert " ∷ text ∷ " to a BigInt" ∷ [])

-- `if (normalized < 0n) throw`, of an integer that was read.
abbrev not_negative : Value → String → Result ℕ
not_negative (bigint n) label = ok n
not_negative _ label = throw (message (label ∷ " must not be negative" ∷ []))

-- positiveInteger
unfoldable pub positive_integer : Value → String → Result ℕ
positive_integer (bigint n) label = ok n
positive_integer (minus_bigint n) label = throw (message (label ∷ " must not be negative" ∷ []))
positive_integer value label = elim (parse_big_int (text_of value)) [
  | none ↦ throw (not_big_int (text_of value))
  | some n ↦ not_negative n label
]

-- boundedCount
unfoldable pub bounded_count : Value → String → ℕ → Result ℕ
bounded_count value label maximum = elim (safe_nat (to_number value)) [
  | none ↦ throw (message (label ∷ " must be between 1 and " ∷ to_decimal maximum ∷ []))
  | some n ↦
      if ltb n 1 || ltb maximum n
      then throw (message (label ∷ " must be between 1 and " ∷ to_decimal maximum ∷ []))
      else ok n
]

-- canonicalHex
unfoldable pub canonical_hex : Value → String
canonical_hex value = strip_0x (to_lower_case (trim (text_or_empty value)))

pub bounded_count-le :
    (value : Value) (label : String) (maximum n : ℕ)
    → bounded_count value label maximum ≡ ok n
    → (1 ≤ n) × (n ≤ maximum)
unfolding bounded_count
bounded_count-le value label maximum n h = elim (Option-cases (safe_nat (to_number value))) [
  | inl unsafe ↦ absurd (ground (arith, unsafe, h))
  | inr (m, safe) ↦ ground (arith, safe, h)
]

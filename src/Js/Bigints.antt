-- ===== src/Js/Bigints.antt =====
-- BigInt(text), and elements by index.
use Prim.Native.String.{String, [], ◌∷◌}
use Prim.Native.Char.{code}
use clairveil_samples.Js.Dynamic.{
  Value, array, bigint, get_field, items, minus_bigint, object, undefined,
}
use clairveil_samples.Js.Numbers.{hex_after}
use clairveil_samples.Js.Text.{
  decimal_after, every_char, is_digit, is_empty, is_hex, strip_0x, to_decimal, to_lower_case, trim,
}
use clairveil_samples.Prelude.{
  Bool, Option, false, get_elem?, if◌then◌else◌, none, not, some, suc, true, zero, ℕ, ◌&&◌, ◌===◌,
  ◌==◌, ◌||◌,
}

abbrev signed_bigint : Bool → ℕ → Value
signed_bigint minus zero = bigint 0
signed_bigint false (suc n) = bigint (suc n)
signed_bigint true (suc n) = minus_bigint n

-- Decimal digits after an optional sign.
unfoldable pub signed_big_int : String → Option Value
unfolding every_char
signed_big_int [] = none
signed_big_int (c ∷ s) =
    let minus = code c == b'-' in
    let digits = if minus || code c == b'+' then s else c ∷ s in
    if every_char is_digit digits && not (is_empty digits)
    then some (signed_bigint minus (decimal_after 0 digits))
    else none

-- BigInt(text), as a bigint. The binary and octal prefixes are not read.
unfoldable pub parse_big_int : String → Option Value
unfolding signed_big_int trim strip_0x to_lower_case every_char hex_after
parse_big_int text =
    let word = trim text in
    let hex = strip_0x (to_lower_case word) in
    if is_empty word
    then some (bigint 0)
    else if not (hex === to_lower_case word)
    then (if every_char is_hex hex && not (is_empty hex)
        then some (bigint (hex_after 0 hex))
        else none)
    else signed_big_int word

unfoldable pub element_at : ℕ → Value → Value
unfolding items get_field
element_at i (array vs) = elim (get_elem? (items vs) i) [ none ↦ undefined | some v ↦ v ]
element_at i (object fs) = get_field (to_decimal i) fs
element_at i _ = undefined

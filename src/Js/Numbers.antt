-- ===== src/Js/Numbers.antt =====
-- Numbers, and their conversion from and to texts.
use Prim.Native.String.{String, [], ◌∷◌, ◌++◌}
use Prim.Native.Char.{code}
use clairveil_samples.Js.Text.{
  decimal_after, every_char, is_digit, is_empty, is_hex, size, strip_0x, to_decimal, to_lower_case,
  trim,
}
use clairveil_samples.Prelude.{
  Bool, Option, false, if◌then◌else◌, leb, ltb, none, not, some, suc, true, zero, ℕ, ◌%◌, ◌&&◌, ◌*◌,
  ◌+◌, ◌-◌, ◌/◌, ◌===◌, ◌==◌, ◌^◌, ◌||◌,
}

-- `neg n` is -(n + 1). `fraction minus n text` is no integer: its sign, the integer part of its
-- magnitude and the text that it prints.
pub data Number : Type 0 where
  nat : ℕ → Number
  neg : ℕ → Number
  fraction : Bool → ℕ → String → Number
  infinity : Bool → Number
  nan : Number

abbrev pub max_safe_integer : ℕ
max_safe_integer = 9007199254740991

-- Number.isSafeInteger
unfoldable pub is_safe_integer : Number → Bool
is_safe_integer (nat n) = leb n max_safe_integer
is_safe_integer (neg n) = ltb n max_safe_integer
is_safe_integer (fraction minus n text) = false
is_safe_integer (infinity minus) = false
is_safe_integer nan = false

-- Number.isSafeInteger(x) && x >= 0, with the integer.
unfoldable pub safe_nat : Number → Option ℕ
safe_nat (nat n) = if leb n max_safe_integer then some n else none
safe_nat (neg n) = none
safe_nat (fraction minus n text) = none
safe_nat (infinity minus) = none
safe_nat nan = none

-- x > 0
unfoldable pub is_positive : Number → Bool
is_positive (nat n) = ltb 0 n
is_positive (neg n) = false
is_positive (fraction minus n text) = not minus
is_positive (infinity minus) = not minus
is_positive nan = false

-- x === 0
unfoldable pub is_zero : Number → Bool
is_zero (nat n) = n == 0
is_zero (neg n) = false
is_zero (fraction minus n text) = false
is_zero (infinity minus) = false
is_zero nan = false

unfoldable pub number_text : Number → String
unfolding to_decimal
number_text (nat n) = to_decimal n
number_text (neg n) = "-" ++ to_decimal (suc n)
number_text (fraction minus n text) = text
number_text (infinity minus) = if minus then "-Infinity" else "Infinity"
number_text nan = "NaN"

-- The longest prefix of digits, and what follows it.
unfoldable pub split_digits : String → String × String
split_digits [] = ([], [])
split_digits (c ∷ s) =
    let (digits, rest) = split_digits s in
    if is_digit (code c) then (c ∷ digits, rest) else ([], c ∷ s)

abbrev signed : Bool → ℕ → Number
signed minus zero = nat 0
signed false (suc n) = nat (suc n)
signed true (suc n) = neg n

-- m * 10 ^ up / 10 ^ down
scaled : Bool → ℕ → ℕ → ℕ → String → Number
scaled minus m up down text =
    let top = m * 10 ^ up in
    let bottom = 10 ^ down in
    if top % bottom == 0 then signed minus (top / bottom) else fraction minus (top / bottom) text

-- The exponent that may follow a decimal: its sign and digits, or nothing where there is none.
exponent : String → Option (Bool × ℕ)
exponent [] = some (false, 0)
exponent (c ∷ []) = none
exponent (c ∷ d ∷ s) =
    let minus = code d == b'-' in
    let digits = if minus || code d == b'+' then s else d ∷ s in
    if (code c == b'e' || code c == b'E') && not (is_empty digits) && every_char is_digit digits
    then some (minus, decimal_after 0 digits)
    else none

-- Digits, then a point with digits, then an exponent.
after_point : String → Option (String × String)
unfolding split_digits
after_point [] = some ([], [])
after_point (c ∷ s) = if code c == b'.' then some (split_digits s) else some ([], c ∷ s)

decimal_number : Bool → String → Number
unfolding after_point exponent scaled every_char
decimal_number minus text =
    let (whole, rest) = split_digits text in
    elim (after_point rest) [
      | none ↦ nan
      | some (part, tail) ↦
          let digits = whole ++ part in
          elim (exponent tail) [
            | none ↦ nan
            | some (down, e) ↦
                if is_empty digits
                then nan
                else scaled minus (decimal_after 0 digits) (if down then 0 else e)
                    (size part + (if down then e else 0)) text
          ]
    ]

signed_number : String → Number
unfolding decimal_number split_digits
signed_number [] = nan
signed_number (c ∷ s) =
    let minus = code c == b'-' in
    let magnitude = if minus || code c == b'+' then s else c ∷ s in
    if magnitude === "Infinity" then infinity minus else decimal_number minus magnitude

hex_digit : ℕ → ℕ
hex_digit c = if leb b'a' c then c - b'a' + 10 else if leb b'A' c then c - b'A' + 10 else c - b'0'

unfoldable pub hex_after : ℕ → String → ℕ
unfolding hex_digit
hex_after n [] = n
hex_after n (c ∷ s) = hex_after (n * 16 + hex_digit (code c)) s

-- Number(text). The binary and octal prefixes are not read.
unfoldable pub parse_number : String → Number
unfolding trim signed_number hex_after strip_0x to_lower_case every_char size
parse_number text =
    let word = trim text in
    let hex = strip_0x (to_lower_case word) in
    if is_empty word
    then nat 0
    else if not (hex === to_lower_case word)
    then (if every_char is_hex hex && not (is_empty hex) then nat (hex_after 0 hex) else nan)
    else signed_number word

-- ===== src/Js/Text.antt =====
-- Texts: String.prototype.trim and toLowerCase, the regular expressions of the program as tests, and
-- decimal numbers.
use Prim.Native.String.{String, [], ◌∷◌, char_at}
use Prim.Native.Char.{Char, code}
use clairveil_samples.Prelude.{
  Bool, false, if◌then◌else◌, leb, ltb, suc, true, zero, ℕ, ◌%◌, ◌&&◌, ◌*◌, ◌+◌, ◌-◌, ◌/◌, ◌==◌,
  ◌||◌,
}

abbrev pub is_empty : String → Bool
is_empty [] = true
is_empty (c ∷ s) = false

unfoldable pub size : String → ℕ
size [] = 0
size (c ∷ s) = suc (size s)

-- White space and line terminators, as `trim` takes them off.
unfoldable pub is_space : ℕ → Bool
is_space c =
    leb 9 c && leb c 13
    || c == 32
    || c == 0xa0
    || c == 0x1680
    || leb 0x2000 c && leb c 0x200a
    || c == 0x2028
    || c == 0x2029
    || c == 0x202f
    || c == 0x205f
    || c == 0x3000
    || c == 0xfeff

unfoldable pub trim_start : String → String
trim_start [] = []
trim_start (c ∷ s) = if is_space (code c) then trim_start s else c ∷ s

unfoldable pub trim_end : String → String
trim_end [] = []
trim_end (c ∷ s) =
    let rest = trim_end s in if is_empty rest && is_space (code c) then [] else c ∷ rest

unfoldable pub trim : String → String
unfolding trim_start trim_end is_space
trim s = trim_end (trim_start s)

unfoldable pub lower_char : Char → Char
lower_char c =
    if leb b'A' (code c) && leb (code c) b'Z'
    then char_at "abcdefghijklmnopqrstuvwxyz" (code c - b'A')
    else c

unfoldable pub to_lower_case : String → String
unfolding lower_char
to_lower_case [] = []
to_lower_case (c ∷ s) = lower_char c ∷ to_lower_case s

-- `.replace(/^0x/, "")`
unfoldable pub strip_0x : String → String
strip_0x [] = []
strip_0x (c ∷ []) = c ∷ []
strip_0x (c ∷ d ∷ s) = if code c == b'0' && code d == b'x' then s else c ∷ d ∷ s

unfoldable pub every_char : (ℕ → Bool) → String → Bool
every_char p [] = true
every_char p (c ∷ s) = p (code c) && every_char p s

abbrev pub is_digit : ℕ → Bool
is_digit c = leb b'0' c && leb c b'9'

-- [0-9a-f]
abbrev pub is_hex : ℕ → Bool
is_hex c = leb b'0' c && leb c b'9' || leb b'a' c && leb c b'f'

-- /^[0-9a-f]{64}$/
unfoldable pub is_hash : String → Bool
unfolding every_char size
is_hash s = every_char is_hex s && size s == 64

-- /^[1-9][0-9]*$/
unfoldable pub is_positive_decimal : String → Bool
unfolding every_char
is_positive_decimal [] = false
is_positive_decimal (c ∷ s) = leb b'1' (code c) && leb (code c) b'9' && every_char is_digit s

-- /^(0|[1-9][0-9]*)$/
unfoldable pub is_canonical_decimal : String → Bool
unfolding is_positive_decimal
is_canonical_decimal [] = false
is_canonical_decimal (c ∷ s) = code c == b'0' && is_empty s || is_positive_decimal (c ∷ s)

-- The number that decimal digits write, after `n`.
unfoldable pub decimal_after : ℕ → String → ℕ
decimal_after n [] = n
decimal_after n (c ∷ s) = decimal_after (n * 10 + (code c - b'0')) s

abbrev pub digit : ℕ → Char
digit d = char_at "0123456789" d

-- The digits of `n` before `s`; more fuel than digits is given.
unfoldable pub decimal_before : ℕ → ℕ → String → String
decimal_before zero n s = s
decimal_before (suc fuel) n s =
    let rest = decimal_before fuel (n / 10) (digit (n % 10) ∷ s) in
    if ltb n 10 then digit n ∷ s else rest

unfoldable pub to_decimal : ℕ → String
unfolding decimal_before
to_decimal n = decimal_before (suc n) n []

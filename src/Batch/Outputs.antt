-- ===== src/Batch/Outputs.antt =====
-- Bytes as hexadecimal digits.
use Prim.Native.String.{String, [], ◌∷◌, char_at}
use Prim.Native.Char.{Char, code}
use clairveil_samples.Prelude.{ℕ, ◌%◌, ◌/◌}

-- The two digits of a byte.
abbrev hex_character : ℕ → Char
hex_character d = char_at "0123456789abcdef" d

unfoldable pub hex_of : String → String
hex_of [] = []
hex_of (c ∷ s) = hex_character (code c / 16) ∷ hex_character (code c % 16) ∷ hex_of s

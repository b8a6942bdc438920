-- ===== src/Withdraw/Varint.antt =====
-- public/relay-withdraw-reconciliation.js: numbers of a protobuf message, seven bits a byte. Bytes
-- from the offset on are a list; advancing the offset is dropping them.
use Prim.Native.Nat.{bit_and, bit_or}
use clairveil_samples.Js.{add_seven, bit_or_shifted, byte_parts, message, seven_apart}
use clairveil_samples.Prelude.{
  List, Result, String, [], arith, if◌then◌else◌, length, ltb, ok, suc, throw, zero, ℕ, ◌%◌, ◌*◌,
  ◌++◌, ◌+◌, ◌/◌, ◌<◌, ◌==◌, ◌^◌, ◌∷◌, ◌≡◌,
}

-- The loop of readProtobufVarint, with the rounds that are left.
unfoldable pub varint_rounds : ℕ → List ℕ → String → ℕ → ℕ → Result (ℕ × List ℕ)
varint_rounds zero bytes label value shift =
    throw (message (label ∷ " contains an oversized varint" ∷ []))
varint_rounds (suc rounds) [] label value shift =
    throw (message (label ∷ " ended inside a varint" ∷ []))
varint_rounds (suc rounds) (byte ∷ bytes) label value shift =
    let read = bit_or value (bit_and byte 0x7f * 2 ^ shift) in
    let more = varint_rounds rounds bytes label read (shift + 7) in
    if bit_and byte 0x80 == 0 then ok (read, bytes) else more

-- readProtobufVarint, with the bytes that follow the number
unfoldable pub read_protobuf_varint : List ℕ → String → Result (ℕ × List ℕ)
read_protobuf_varint bytes label = varint_rounds 10 bytes label 0 0

-- How a number is written, in at most `more + 1` bytes: its lowest seven bits first.
unfoldable pub varint : ℕ → ℕ → List ℕ
varint zero n = n ∷ []
varint (suc more) n =
    let rest = varint more (n / 128) in if ltb n 128 then n ∷ [] else (n % 128 + 128) ∷ rest

-- A round takes one byte.
pub varint_rounds_shorter :
    (rounds : ℕ) (bytes : List ℕ) (label : String) (value shift n : ℕ) (rest : List ℕ)
    → varint_rounds rounds bytes label value shift ≡ ok (n, rest)
    → length rest < length bytes
unfolding varint_rounds
varint_rounds_shorter zero bytes label value shift n rest h = cc
varint_rounds_shorter (suc rounds) [] label value shift n rest h = cc
varint_rounds_shorter (suc rounds) (byte ∷ bytes) label value shift n rest h = ground (
  arith,
  varint_rounds_shorter rounds bytes label (bit_or value (bit_and byte 0x7f * 2 ^ shift))
      (shift + 7) n rest,
)

pub read_shorter :
    (bytes : List ℕ) (label : String) (n : ℕ) (rest : List ℕ)
    → read_protobuf_varint bytes label ≡ ok (n, rest)
    → length rest < length bytes
unfolding read_protobuf_varint
read_shorter bytes label n rest h = varint_rounds_shorter 10 bytes label 0 0 n rest h

last_round :
    (rounds byte : ℕ) (rest : List ℕ) (label : String) (value shift : ℕ)
    → byte < 128
    → value < 2 ^ shift
    → varint_rounds (suc rounds) (byte ∷ rest) label value shift
      ≡ ok (value + byte * 2 ^ shift, rest)
unfolding varint_rounds
last_round rounds byte rest label value shift h k =
    ground (arith, byte_parts byte, bit_or_shifted value byte shift)

further_round :
    (rounds group : ℕ) (rest : List ℕ) (label : String) (value shift : ℕ)
    → group < 128
    → value < 2 ^ shift
    → varint_rounds (suc rounds) ((group + 128) ∷ rest) label value shift
      ≡ varint_rounds rounds rest label (value + group * 2 ^ shift) (shift + 7)
unfolding varint_rounds
further_round rounds group rest label value shift h k =
    ground (arith, byte_parts (group + 128), bit_or_shifted value group shift)

-- `n` is still to be read, from the bit `shift` on.
rounds-varint :
    (more n : ℕ) (rest : List ℕ) (label : String) (value shift : ℕ)
    → n < 128 ^ suc more
    → value < 2 ^ shift
    → varint_rounds (suc more) (varint more n ++ rest) label value shift
      ≡ ok (value + n * 2 ^ shift, rest)
unfolding varint_rounds varint
rounds-varint zero n rest label value shift h k = last_round 0 n rest label value shift h k
rounds-varint (suc more) n rest label value shift h k = ground (
  arith,
  last_round (suc more) n rest label value shift,
  further_round (suc more) (n % 128) (varint more (n / 128) ++ rest) label value shift,
  add_seven value shift (n % 128),
  seven_apart n shift,
  rounds-varint more (n / 128) rest label (value + n % 128 * 2 ^ shift) (shift + 7) (omega arith),
)

-- What was written is read, and what follows it is left.
pub read-varint :
    (n : ℕ) (rest : List ℕ) (label : String)
    → n < 128 ^ 10
    → read_protobuf_varint (varint 9 n ++ rest) label ≡ ok (n, rest)
unfolding read_protobuf_varint
read-varint n rest label h = ground (arith, rounds-varint 9 n rest label 0 0)

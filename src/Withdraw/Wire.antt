-- ===== src/Withdraw/Wire.antt =====
-- The writing of protobuf messages, as an independent description of what
-- public/relay-withdraw-reconciliation.js reads.
use clairveil_samples.Js.{max_safe_integer}
use clairveil_samples.Prelude.{
  All, List, Option, String, [], arith, drop-append, length, length-append, none, ok, refl, some,
  subst, suc, take-append, zero, ℕ, ◌%◌, ◌*◌, ◌++◌, ◌+◌, ◌/◌, ◌<◌, ◌^◌, ◌∙◌, ◌∷◌, ◌≡◌, ◌≤◌,
}
use clairveil_samples.Withdraw.Fields.{
  Field, after_tag, delimited, fields_rounds, fields_rounds_next, protobuf_fields, pushed,
  read_field, read_field_shorter, skipped,
}
use clairveil_samples.Withdraw.Varint.{read-varint, varint}
use mathlib.Core.List.{append_assoc}

pub data WireEntry : Type 0 where
  varint_entry : ℕ → ℕ → WireEntry
  -- Eight bytes, or four.
  wide_entry narrow_entry : ℕ → List ℕ → WireEntry
  bytes_entry : ℕ → List ℕ → WireEntry

abbrev IsNumber : ℕ → Type 0
IsNumber k = (0 < k) × (k ≤ max_safe_integer)

-- What can be written: a field number, a value of ten groups, as many bytes as the kind has.
abbrev pub IsWireEntry : WireEntry → Type 0
IsWireEntry (varint_entry k n) = IsNumber k × (n < 128 ^ 10)
IsWireEntry (wide_entry k bytes) = IsNumber k × (length bytes ≡ 8)
IsWireEntry (narrow_entry k bytes) = IsNumber k × (length bytes ≡ 4)
IsWireEntry (bytes_entry k bytes) = IsNumber k × (length bytes ≤ max_safe_integer)

abbrev pub entry_number : WireEntry → ℕ
entry_number (varint_entry k n) = k
entry_number (wide_entry k bytes) = k
entry_number (narrow_entry k bytes) = k
entry_number (bytes_entry k bytes) = k

abbrev entry_wire : WireEntry → ℕ
entry_wire (varint_entry k n) = 0
entry_wire (wide_entry k bytes) = 1
entry_wire (narrow_entry k bytes) = 5
entry_wire (bytes_entry k bytes) = 2

unfoldable pub payload : WireEntry → List ℕ
payload (varint_entry k n) = varint 9 n
payload (wide_entry k bytes) = bytes
payload (narrow_entry k bytes) = bytes
payload (bytes_entry k bytes) = varint 9 (length bytes) ++ bytes

unfoldable pub written : WireEntry → List ℕ
written e = varint 9 (entry_number e * 8 + entry_wire e) ++ payload e

unfoldable pub written_all : List WireEntry → List ℕ
unfolding written
written_all [] = []
written_all (e ∷ es) = written e ++ written_all es

unfoldable pub entry_field : WireEntry → Option Field
entry_field (bytes_entry k bytes) = some (record { field_number = k; wire_type = 2; value = bytes })
entry_field _ = none

unfoldable pub entry_fields : List WireEntry → List Field
unfolding entry_field
entry_fields [] = []
entry_fields (e ∷ es) = pushed (entry_field e) (entry_fields es)

-- A tag is read with its field number and its wire type.
read_tagged :
    (k wire : ℕ) (rest : List ℕ) (label : String)
    → IsNumber k
    → wire < 8
    → read_field (varint 9 (k * 8 + wire) ++ rest) label ≡ after_tag k wire rest label
unfolding read_field
read_tagged k wire rest label (h, g) w =
    ground (arith, read-varint (k * 8 + wire) rest label, tag_parts k wire w)
  where
    tag_parts : (k wire : ℕ) → wire < 8 → ((k * 8 + wire) / 8 ≡ k) × ((k * 8 + wire) % 8 ≡ wire)
    tag_parts k wire w = omega arith

skipped-append :
    (bytes rest : List ℕ) (label : String)
    → skipped (length bytes) (bytes ++ rest) label ≡ ok (none, rest)
skipped-append bytes rest label = ground (arith, length-append bytes rest, drop-append bytes rest)

delimited-append :
    (k : ℕ) (bytes rest : List ℕ) (label : String)
    → length bytes ≤ max_safe_integer
    → delimited k (bytes ++ rest) (length bytes) label
      ≡ ok (some (record { field_number = k; wire_type = 2; value = bytes }), rest)
delimited-append k bytes rest label h =
    ground (arith, length-append bytes rest, drop-append bytes rest, take-append bytes rest)

small : (n : ℕ) → n ≤ max_safe_integer → n < 128 ^ 10
small n h = omega arith

after_tag-written :
    (e : WireEntry) (rest : List ℕ) (label : String)
    → IsWireEntry e
    → after_tag (entry_number e) (entry_wire e) (payload e ++ rest) label ≡ ok (entry_field e, rest)
unfolding payload entry_field after_tag
after_tag-written (varint_entry k n) rest label (h, g) = rw (read-varint n rest label g) refl
after_tag-written (wide_entry k bytes) rest label (h, g) =
    subst (λ w. skipped w (bytes ++ rest) label ≡ ok (none, rest)) g
      (skipped-append bytes rest label)
after_tag-written (narrow_entry k bytes) rest label (h, g) =
    subst (λ w. skipped w (bytes ++ rest) label ≡ ok (none, rest)) g
      (skipped-append bytes rest label)
after_tag-written (bytes_entry k bytes) rest label (h, g) = rw append_assoc (
    rw (read-varint (length bytes) (bytes ++ rest) label (small (length bytes) g))
      (delimited-append k bytes rest label g))

numbered : (e : WireEntry) → IsWireEntry e → IsNumber (entry_number e)
numbered (varint_entry k n) (h, g) = h
numbered (wide_entry k bytes) (h, g) = h
numbered (narrow_entry k bytes) (h, g) = h
numbered (bytes_entry k bytes) (h, g) = h

wire_small : (e : WireEntry) → entry_wire e < 8
wire_small (varint_entry k n) = omega arith
wire_small (wide_entry k bytes) = omega arith
wire_small (narrow_entry k bytes) = omega arith
wire_small (bytes_entry k bytes) = omega arith

read-written :
    (e : WireEntry) (rest : List ℕ) (label : String)
    → IsWireEntry e
    → read_field (written e ++ rest) label ≡ ok (entry_field e, rest)
unfolding written
read-written e rest label h = rw append_assoc (
    read_tagged (entry_number e) (entry_wire e) (payload e ++ rest) label (numbered e h)
      (wire_small e)
    ∙ after_tag-written e rest label h)

rounds-written :
    (es : List WireEntry) (rounds : ℕ) (label : String)
    → All IsWireEntry es
    → length (written_all es) ≤ rounds
    → fields_rounds rounds (written_all es) label ≡ ok (entry_fields es)
unfolding written_all entry_fields
rounds-written [] rounds label h enough = unfold fields_rounds in refl
rounds-written (e ∷ es) zero label (h, hs) enough =
    absurd (omega (arith, read_field_shorter _ label _ _ (read-written e (written_all es) label h)))
rounds-written (e ∷ es) (suc rounds) label (h, hs) enough =
    fields_rounds_next rounds _ label _ _ first
    ∙ rw (rounds-written es rounds label hs (omega (arith, read_field_shorter _ label _ _ first)))
        refl
  where
    first : read_field (written e ++ written_all es) label ≡ ok (entry_field e, written_all es)
    first = read-written e (written_all es) label h

-- The fields of a written message are its length-delimited entries, in their order, each with its
-- number and bytes; the entries of the other kinds are skipped.
pub protobuf_fields-written :
    (es : List WireEntry) (label : String)
    → All IsWireEntry es
    → protobuf_fields (written_all es) label ≡ ok (entry_fields es)
unfolding protobuf_fields
protobuf_fields-written es label h =
    rounds-written es (length (written_all es)) label h (omega arith)

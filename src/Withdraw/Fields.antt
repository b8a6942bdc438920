-- ===== src/Withdraw/Fields.antt =====
-- public/relay-withdraw-reconciliation.js: the fields of a protobuf message.
use clairveil_samples.Js.{max_safe_integer, message, to_decimal}
use clairveil_samples.Prelude.{
  List, Option, Result, String, [], arith, drop, if◌then◌else◌, inl, inr, leb, length,
  length-drop-le, ltb, none, ok, refl, result_cases, some, suc, take, throw, zero, ℕ, ◌%◌, ◌&&◌,
  ◌/◌, ◌<◌, ◌==◌, ◌>>=◌, ◌∷◌, ◌≡◌, ◌≤◌,
}
use clairveil_samples.Withdraw.Varint.{read_protobuf_varint, read_shorter}

-- What protobufFields pushes: a field of wire type 2.
pub record Field : Type 0 where
  pub field_number : ℕ
  pub wire_type : ℕ
  pub value : List ℕ

abbrev pub skipped : ℕ → List ℕ → String → Result (Option Field × List ℕ)
skipped width bytes label =
    if ltb (length bytes) width
    then throw (message (label ∷ " contains a truncated fixed-width field" ∷ []))
    else ok (none, drop width bytes)

abbrev pub delimited : ℕ → List ℕ → ℕ → String → Result (Option Field × List ℕ)
delimited index bytes width label =
    if ltb max_safe_integer width
    then throw (message (label ∷ " contains an oversized field" ∷ []))
    else if ltb (length bytes) width
    then throw (message (label ∷ " contains a truncated length-delimited field" ∷ []))
    else ok (
      some (record { field_number = index; wire_type = 2; value = take width bytes }),
      drop width bytes,
    )

-- What follows a tag of the wire type, with the field if it is kept.
unfoldable pub after_tag : ℕ → ℕ → List ℕ → String → Result (Option Field × List ℕ)
after_tag index wire bytes label =
    if wire == 0
    then (read_protobuf_varint bytes label >>= λ (value, rest). ok (none, rest))
    else if wire == 1
    then skipped 8 bytes label
    else if wire == 5
    then skipped 4 bytes label
    else if wire == 2
    then (read_protobuf_varint bytes label >>= λ (width, rest). delimited index rest width label)
    else throw (message (label ∷ " uses unsupported protobuf wire type " ∷ to_decimal wire ∷ []))

-- A round of the loop of protobufFields: a tag, and what follows it.
unfoldable pub read_field : List ℕ → String → Result (Option Field × List ℕ)
read_field bytes label = read_protobuf_varint bytes label >>= λ (tag, rest).
    if leb (tag / 8) max_safe_integer && ltb 0 (tag / 8)
    then after_tag (tag / 8) (tag % 8) rest label
    else throw (message (label ∷ " contains an invalid field number" ∷ []))

abbrev pub pushed : Option Field → List Field → List Field
pushed none fields = fields
pushed (some f) fields = f ∷ fields

-- The loop of protobufFields. Each round takes a byte or more, so that no message outlasts as many
-- rounds as it has bytes.
unfoldable pub fields_rounds : ℕ → List ℕ → String → Result (List Field)
fields_rounds rounds [] label = ok []
fields_rounds zero (byte ∷ bytes) label = throw ""
fields_rounds (suc rounds) (byte ∷ bytes) label =
    read_field (byte ∷ bytes) label >>= λ (read, rest).
    fields_rounds rounds rest label >>= λ fields. ok (pushed read fields)

-- protobufFields
unfoldable pub protobuf_fields : List ℕ → String → Result (List Field)
unfolding fields_rounds
protobuf_fields bytes label = fields_rounds (length bytes) bytes label

skipped_shorter :
    (width : ℕ) (bytes : List ℕ) (label : String) (read : Option Field) (rest : List ℕ)
    → skipped width bytes label ≡ ok (read, rest)
    → length rest ≤ length bytes
skipped_shorter width bytes label read rest h = ground (arith, length-drop-le width bytes)

delimited_shorter :
    (index : ℕ) (bytes : List ℕ) (width : ℕ) (label : String) (read : Option Field) (rest : List ℕ)
    → delimited index bytes width label ≡ ok (read, rest)
    → length rest ≤ length bytes
delimited_shorter index bytes width label read rest h = ground (arith, length-drop-le width bytes)

after_tag_shorter :
    (index wire : ℕ) (bytes : List ℕ) (label : String) (read : Option Field) (rest : List ℕ)
    → after_tag index wire bytes label ≡ ok (read, rest)
    → length rest ≤ length bytes
unfolding after_tag
after_tag_shorter index wire bytes label read rest h =
    elim (result_cases (read_protobuf_varint bytes label)) [
      | inl (problem, e) ↦ ground (
        arith,
        e,
        skipped_shorter 8 bytes label read rest,
        skipped_shorter 4 bytes label read rest,
      )
      | inr ((n, left), e) ↦ ground (
        arith,
        e,
        read_shorter bytes label n left,
        skipped_shorter 8 bytes label read rest,
        skipped_shorter 4 bytes label read rest,
        delimited_shorter index left n label read rest,
      )
    ]

pub read_field_shorter :
    (bytes : List ℕ) (label : String) (read : Option Field) (rest : List ℕ)
    → read_field bytes label ≡ ok (read, rest)
    → length rest < length bytes
unfolding read_field
read_field_shorter bytes label read rest h =
    elim (result_cases (read_protobuf_varint bytes label)) [
      | inl (problem, e) ↦ ground (arith, e)
      | inr ((tag, left), e) ↦ ground (
        arith,
        e,
        read_shorter bytes label tag left,
        after_tag_shorter (tag / 8) (tag % 8) left label read rest,
      )
    ]

-- Any two numbers of rounds that are at least the number of bytes give the same fields or the same
-- error: the loop ends by itself.
pub fields_rounds_enough :
    (n m : ℕ) (bytes : List ℕ) (label : String)
    → length bytes ≤ n
    → length bytes ≤ m
    → fields_rounds n bytes label ≡ fields_rounds m bytes label
unfolding fields_rounds
fields_rounds_enough n m [] label p q = refl
fields_rounds_enough zero m (byte ∷ bytes) label p q = absurd (omega arith)
fields_rounds_enough (suc n) zero (byte ∷ bytes) label p q = absurd (omega arith)
fields_rounds_enough (suc n) (suc m) (byte ∷ bytes) label p q =
    elim (result_cases (read_field (byte ∷ bytes) label)) [
      | inl (problem, e) ↦ rw e refl
      | inr ((read, rest), e) ↦ rw e (
          rw (fields_rounds_enough n m rest label (shorter read rest e p) (shorter read rest e q))
            refl)
    ]
  where
    shorter :
        {k : ℕ} (read : Option Field) (rest : List ℕ)
        → read_field (byte ∷ bytes) label ≡ ok (read, rest)
        → suc (length bytes) ≤ suc k
        → length rest ≤ k
    shorter read rest e h = omega (arith, read_field_shorter (byte ∷ bytes) label read rest e)

-- A round that reads a field goes on behind it.
pub fields_rounds_next :
    (rounds : ℕ) (bytes : List ℕ) (label : String) (read : Option Field) (rest : List ℕ)
    → read_field bytes label ≡ ok (read, rest)
    → fields_rounds (suc rounds) bytes label
      ≡ (fields_rounds rounds rest label >>= λ fields. ok (pushed read fields))
unfolding fields_rounds
fields_rounds_next rounds [] label read rest h =
    absurd (omega (arith, read_field_shorter [] label read rest h))
fields_rounds_next rounds (byte ∷ bytes) label read rest h = rw h refl

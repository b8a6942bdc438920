-- ===== src/Withdraw/Included.antt =====
-- Which included Cosmos transactions are taken for a withdrawal, by the messages that were written in
-- them: public/relay-withdraw-reconciliation.js.
use clairveil_samples.Prelude.{
  All, Bool, List, Result, [], and-eq-true, ap, arith, eq_iff, every, keep, map, not, ok, refl,
  some, subst, sym, true, ℕ, ◌++◌, ◌==◌, ◌>>=◌, ◌↔◌, ◌∙◌, ◌∷◌, ◌≡◌,
}
use clairveil_samples.Withdraw.Fields.{Field, fields_rounds, protobuf_fields}
use clairveil_samples.Withdraw.Message.{
  AnyMessage, Codec, WithdrawMessage, cosmos_withdraw_message, is_delimited, is_withdrawal,
  only_withdrawal, read_any, read_messages, required_length_delimited_field,
}
use clairveil_samples.Withdraw.Wire.{
  IsWireEntry, WireEntry, bytes_entry, entry_field, entry_fields, entry_number, narrow_entry,
  protobuf_fields-written, varint_entry, wide_entry, written_all,
}

-- A message of a transaction: the bytes of its type URL, and its own.
pub record Packed : Type 0 where
  pub url : List ℕ
  pub content : List ℕ

abbrev pub any_entries : Packed → List WireEntry
any_entries p = bytes_entry 1 p.url ∷ bytes_entry 2 p.content ∷ []

unfoldable pub message_entry : Packed → WireEntry
message_entry p = bytes_entry 1 (written_all (any_entries p))

-- The body of a transaction, with its messages and its other entries.
abbrev pub body_entries : List Packed → List WireEntry → List WireEntry
body_entries ms memo = map message_entry ms ++ memo

abbrev pub raw_entries : List Packed → List WireEntry → List WireEntry → List WireEntry
raw_entries ms memo auth = bytes_entry 1 (written_all (body_entries ms memo)) ∷ auth

-- Entries with other field numbers than 1.
abbrev pub others : List WireEntry → Bool
others es = every (λ e. not (entry_number e == 1)) es

abbrev pub unpacked : Codec → Packed → AnyMessage
unpacked codec p = record { type_url = codec.decode_text p.url; value = p.content }

message_field : Packed → Field
message_field p = record { field_number = 1; wire_type = 2; value = written_all (any_entries p) }

kept-others :
    (es : List WireEntry) → others es ≡ true → keep (is_delimited 1) (entry_fields es) ≡ []
unfolding entry_fields entry_field
kept-others [] h = refl
kept-others (varint_entry k n ∷ es) h = kept-others es (and-eq-true _ _ h).1
kept-others (wide_entry k bytes ∷ es) h = kept-others es (and-eq-true _ _ h).1
kept-others (narrow_entry k bytes ∷ es) h = kept-others es (and-eq-true _ _ h).1
kept-others (bytes_entry k bytes ∷ es) h = ground (arith, kept-others es)

kept-messages :
    (ms : List Packed) (es : List WireEntry)
    → others es ≡ true
    → keep (is_delimited 1) (entry_fields (body_entries ms es)) ≡ map message_field ms
unfolding entry_fields entry_field message_entry message_field
kept-messages [] es h = kept-others es h
kept-messages (m ∷ ms) es h = ap (λ (fs : List Field). message_field m ∷ fs) (kept-messages ms es h)

read_any-message :
    (codec : Codec) (p : Packed)
    → All IsWireEntry (any_entries p)
    → read_any codec (message_field p) ≡ ok (unpacked codec p)
unfolding read_any message_field required_length_delimited_field
read_any-message codec p h =
    rw (protobuf_fields-written (any_entries p) "Cosmos message Any" h)
      (unfold entry_fields entry_field in refl)

read_messages-written :
    (codec : Codec) (ms : List Packed)
    → All (λ p. All IsWireEntry (any_entries p)) ms
    → read_messages codec (map message_field ms) ≡ ok (map (unpacked codec) ms)
unfolding read_messages
read_messages-written codec [] h = refl
read_messages-written codec (m ∷ ms) (h, hs) =
    rw (read_any-message codec m h) (rw (read_messages-written codec ms hs) refl)

-- The body of a transaction whose fields can be read.
from_fields :
    (codec : Codec) (bytes : List ℕ) (f : Field) (fs : List Field)
    → protobuf_fields bytes "Cosmos TxRaw" ≡ ok (f ∷ fs)
    → cosmos_withdraw_message codec (some bytes) ≡ (
        required_length_delimited_field (f ∷ fs) 1 "TxRaw body_bytes" >>= λ body.
        protobuf_fields body "Cosmos TxBody" >>= λ body_fields.
        read_messages codec (keep (is_delimited 1) body_fields) >>= λ messages.
        only_withdrawal codec messages (keep (is_withdrawal codec) messages))
unfolding cosmos_withdraw_message
from_fields codec [] f fs h = unfold protobuf_fields fields_rounds in cc
from_fields codec (byte ∷ bytes) f fs h = rw h refl

abbrev body_field : List ℕ → Field
body_field body = record { field_number = 1; wire_type = 2; value = body }

withdraw_message-written :
    (codec : Codec) (ms : List Packed) (memo auth : List WireEntry)
    → All (λ p. All IsWireEntry (any_entries p)) ms
    → All IsWireEntry (body_entries ms memo)
    → All IsWireEntry (raw_entries ms memo auth)
    → others memo ≡ true
    → others auth ≡ true
    → cosmos_withdraw_message codec (some (written_all (raw_entries ms memo auth)))
      ≡ only_withdrawal codec
          (map (unpacked codec) ms)
          (keep (is_withdrawal codec) (map (unpacked codec) ms))
unfolding required_length_delimited_field
withdraw_message-written codec ms memo auth hm hb hr k l =
    from_fields codec _ (body_field (written_all (body_entries ms memo))) (entry_fields auth)
      (raw_read (protobuf_fields-written (raw_entries ms memo auth) "Cosmos TxRaw" hr))
    ∙ rw (kept-others auth l) (
        rw (protobuf_fields-written (body_entries ms memo) "Cosmos TxBody" hb)
          (rw (kept-messages ms memo k) (rw (read_messages-written codec ms hm) refl)))
  where
    raw_read :
        {r : Result (List Field)}
        → r ≡ ok (entry_fields (raw_entries ms memo auth))
        → r ≡ ok (body_field (written_all (body_entries ms memo)) ∷ entry_fields auth)
    raw_read h = unfold entry_fields entry_field in h

one_withdrawal :
    (codec : Codec) (p : Packed) (m : WithdrawMessage)
    → (only_withdrawal codec
          (unpacked codec p ∷ [])
          (keep (is_withdrawal codec) (unpacked codec p ∷ []))
        ≡ ok m)
      ↔ ((codec.decode_text p.url ≡ codec.withdraw_type_url)
          × (codec.decode_withdraw p.content ≡ ok m))
one_withdrawal codec p m = ground (arith, eq_iff (codec.decode_text p.url) codec.withdraw_type_url)

same_head : {p q : Packed} → p ∷ [] ≡ q ∷ [] → p ≡ q
same_head h = cc

only_withdrawal_iff :
    (codec : Codec) (ms : List Packed) (m : WithdrawMessage)
    → (only_withdrawal codec
          (map (unpacked codec) ms)
          (keep (is_withdrawal codec) (map (unpacked codec) ms))
        ≡ ok m)
      ↔ ((p : Packed) × (ms ≡ p ∷ [])
          × (codec.decode_text p.url ≡ codec.withdraw_type_url)
          × (codec.decode_withdraw p.content ≡ ok m))
only_withdrawal_iff codec [] m = (λ h. cc, λ (p, e, _, _). cc)
only_withdrawal_iff codec (p ∷ []) m = (
  λ h. let (url, e) = (one_withdrawal codec p m).0 h in (p, refl, url, e),
  λ (q, e, url, h). (one_withdrawal codec p m).1 (
    subst (λ r. codec.decode_text r.url ≡ codec.withdraw_type_url) (sym (same_head e)) url,
    subst (λ r. codec.decode_withdraw r.content ≡ ok m) (sym (same_head e)) h,
  ),
)
only_withdrawal_iff codec (p ∷ q ∷ ms) m = (λ h. cc, λ (p, e, _, _). cc)

-- A transaction of written messages, with whatever other entries in its body and beside it, gives a
-- withdrawal exactly if it has one message, whose type URL is that of a withdrawal and whose content
-- decodes to it; a transaction with a second message of any type gives none.
pub cosmos_withdraw_message_iff :
    (codec : Codec) (ms : List Packed) (memo auth : List WireEntry) (m : WithdrawMessage)
    → All (λ p. All IsWireEntry (any_entries p)) ms
    → All IsWireEntry (body_entries ms memo)
    → All IsWireEntry (raw_entries ms memo auth)
    → others memo ≡ true
    → others auth ≡ true
    → (cosmos_withdraw_message codec (some (written_all (raw_entries ms memo auth))) ≡ ok m) ↔ (
        (p : Packed) × (ms ≡ p ∷ [])
        × (codec.decode_text p.url ≡ codec.withdraw_type_url)
        × (codec.decode_withdraw p.content ≡ ok m))
cosmos_withdraw_message_iff codec ms memo auth m hm hb hr k l =
    rw (withdraw_message-written codec ms memo auth hm hb hr k l) (only_withdrawal_iff codec ms m)

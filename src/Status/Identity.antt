-- ===== src/Status/Identity.antt =====
-- Which transaction a reservation belongs to.
use clairveil_samples.Js.{
  Value, is_empty, is_hash, string, strip_0x, text_or_empty, to_lower_case, trim,
}
use clairveil_samples.Prelude.{
  Bool, Bool-cases, String, arith, eq_iff, false, if◌then◌else◌, inl, inr, not, refl, subst, sym,
  true, ◌&&◌, ◌===◌, ◌||◌, ◌∙◌, ◌≡◌, ◌≢◌, ◌⊎◌,
}
use clairveil_samples.Status.Cosmos.{
  agreed_hash, cosmos_reservation_transaction_hash, normalized_tx_hash, raw_hash,
  reservation_has_durable_broadcast_attempt,
}

normalized_cases :
    (value : Value) → (normalized_tx_hash value ≡ "") ⊎ (is_hash (normalized_tx_hash value) ≡ true)
unfolding normalized_tx_hash
normalized_cases value =
    elim (Bool-cases (is_hash (strip_0x (to_lower_case (trim (text_or_empty value)))))) [
      | inl hash ↦ inr (rw hash hash)
      | inr other ↦ inl (rw other refl)
    ]

-- What a transaction hash of two recorded identities says of each.
pub record Agrees (raw_submitted submitted raw_bytes bytes hash : String) : Type 0 where
  pub submitted_agrees : (is_empty raw_submitted ≡ true) ⊎ (submitted ≡ hash)
  pub bytes_agree : (is_empty raw_bytes ≡ true) ⊎ (bytes ≡ hash)
  pub one_of : (submitted ≡ hash) ⊎ (bytes ≡ hash)

agreed :
    (a b c d same attempted : Bool) (submitted bytes hash : String)
    → (same ≡ true → submitted ≡ bytes)
    → (if not a && b || not c && d || not b && not d && not same
        then ""
        else if not b
        then submitted
        else if not d && attempted
        then bytes
        else "")
      ≡ hash
    → hash ≢ ""
    → ((a ≡ true) ⊎ (submitted ≡ hash))
      × ((c ≡ true) ⊎ (bytes ≡ hash))
      × ((submitted ≡ hash) ⊎ (bytes ≡ hash))
agreed a true c true same attempted submitted bytes hash e h nonempty =
    absurd (nonempty (ground arith))
agreed a true c false same attempted submitted bytes hash e h nonempty = ground (arith, nonempty)
agreed a false c true same attempted submitted bytes hash e h nonempty = ground (arith, nonempty)
agreed a false c false true attempted submitted bytes hash e h nonempty =
    ground (arith, nonempty, e)
agreed a false c false false attempted submitted bytes hash e h nonempty =
    absurd (nonempty (ground arith))

agreed_hash-Agrees :
    (raw_submitted submitted raw_bytes bytes : String) (attempted : Bool) (hash : String)
    → agreed_hash raw_submitted submitted raw_bytes bytes attempted ≡ hash
    → hash ≢ ""
    → Agrees raw_submitted submitted raw_bytes bytes hash
unfolding agreed_hash
agreed_hash-Agrees raw_submitted submitted raw_bytes bytes attempted hash e h =
    let (first, second, third) =
      agreed (is_empty raw_submitted) (is_empty submitted) (is_empty raw_bytes) (is_empty bytes)
        (submitted === bytes) attempted submitted bytes hash ((eq_iff submitted bytes).0) e h in
    record { submitted_agrees = first; bytes_agree = second; one_of = third }

hash_of_one :
    (v w : Value) (hash : String)
    → hash ≢ ""
    → (normalized_tx_hash v ≡ hash) ⊎ (normalized_tx_hash w ≡ hash)
    → is_hash hash ≡ true
hash_of_one v w hash h (inl e) = elim (normalized_cases v) [
  | inl none_read ↦ absurd (h (sym e ∙ none_read))
  | inr read ↦ subst (λ s. is_hash s ≡ true) e read
]
hash_of_one v w hash h (inr e) = elim (normalized_cases w) [
  | inl none_read ↦ absurd (h (sym e ∙ none_read))
  | inr read ↦ subst (λ s. is_hash s ≡ true) e read
]

-- Where a reservation has a transaction hash, it is one of 64 lower-case hexadecimal digits, and each
-- identity that the reservation records, the submitted hash and that of the transaction bytes, is this
-- hash once it is normalized: a reservation with conflicting or unreadable identities has none.
pub reservation_hash-Agrees :
    (reservation : Value) (hash : String)
    → cosmos_reservation_transaction_hash reservation ≡ hash
    → hash ≢ ""
    → (is_hash hash ≡ true)
      × Agrees
          (raw_hash "submitted_tx_hash" reservation)
          (normalized_tx_hash (string (raw_hash "submitted_tx_hash" reservation)))
          (raw_hash "tx_bytes_hash" reservation)
          (normalized_tx_hash (string (raw_hash "tx_bytes_hash" reservation)))
          hash
unfolding cosmos_reservation_transaction_hash
reservation_hash-Agrees reservation hash e h =
    let submitted = string (raw_hash "submitted_tx_hash" reservation) in
    let bytes = string (raw_hash "tx_bytes_hash" reservation) in
    let agrees =
      agreed_hash-Agrees (raw_hash "submitted_tx_hash" reservation) (normalized_tx_hash submitted)
        (raw_hash "tx_bytes_hash" reservation) (normalized_tx_hash bytes)
        (reservation_has_durable_broadcast_attempt reservation) hash e h in
    (hash_of_one submitted bytes hash h agrees.one_of, agrees)

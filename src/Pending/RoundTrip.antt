-- ===== src/Pending/RoundTrip.antt =====
-- An entry that was kept is read back as it was: public/public-pending-tx-store.js.
use Prim.Native.String.{String, [], ◌∷◌}
use clairveil_samples.Js.{
  Value, every_char, get, get_field, is_empty, is_hash, is_hex, is_nullish, is_space, string,
  text_of, text_or_empty, to_lower_case, to_lower_case-hex, trim, trim-hex, trim-trim, trim_end,
  trim_start, truthy, undefined,
}
use clairveil_samples.Pending.Again.{evidence_kept_again}
use clairveil_samples.Pending.Entries.{
  CheckTxEvidence, PendingEntry, entry_attempt, entry_hash, entry_status, height_text,
  is_pending_identity, kept_entry, normalized_check_tx_evidence, normalized_pending_entry,
  normalized_status, read_entry, recovery_id,
}
use clairveil_samples.Pending.Reading.{kept_text, read_attempt, read_height, read_recovery}
use clairveil_samples.Pending.Store.{entry_value}
use clairveil_samples.Prelude.{
  >>=-eq-ok, Bool, Bool-cases, Option, and-eq-true, ap, arith, choose, eq_iff, false, if◌then◌else◌,
  inl, inr, none, not, ok, ok_injective, refl, requiring, some, subst, true, ◌&&◌, ◌===◌, ◌||◌, ◌∙◌,
  ◌≡◌, ◌≢◌,
}

pub text_or_empty-string : (s : String) → text_or_empty (string s) ≡ s
unfolding text_or_empty text_of truthy
text_or_empty-string [] = refl
text_or_empty-string (c ∷ s) = refl

normalized_status-trimmed :
    (status : String)
    → trim status ≡ status
    → trim (normalized_status status) ≡ normalized_status status
normalized_status-trimmed status h = elim (Bool-cases (status === "checking")) [
  | inl e ↦ rw e (unfold trim trim_start trim_end is_space in refl)
  | inr e ↦ rw e h
]

normalized_status-normalized_status :
    (status : String) → normalized_status (normalized_status status) ≡ normalized_status status
normalized_status-normalized_status status = elim (Bool-cases (status === "checking")) [
  | inl e ↦ rw e refl
  | inr e ↦ rw (e, e) refl
]

identity_again :
    (allow_recovery : Bool) (status attempt_id tx_hash : String)
    → is_pending_identity allow_recovery status attempt_id tx_hash ≡ true
    → is_pending_identity allow_recovery (normalized_status status) attempt_id tx_hash ≡ true
identity_again allow_recovery status attempt_id tx_hash h =
    elim (Bool-cases (status === "checking")) [
      | inl e ↦ rw e (
          as_unknown (
            subst (λ s. is_pending_identity allow_recovery s attempt_id tx_hash ≡ true)
              ((eq_iff status "checking").0 e) h))
      | inr e ↦ rw e h
    ]
  where
    as_unknown :
        is_pending_identity allow_recovery "checking" attempt_id tx_hash ≡ true
        → is_pending_identity allow_recovery "unknown" attempt_id tx_hash ≡ true
    as_unknown h = unfold is_pending_identity in h

hash_unchanged : (s : String) → is_hash s ≡ true → to_lower_case (trim s) ≡ s
unfolding is_hash
hash_unchanged s h =
    let (hex, long) = and-eq-true (every_char is_hex s) _ h in
    ap to_lower_case (trim-hex s hex) ∙ to_lower_case-hex s hex

attempt_unchanged :
    (s : String) → (is_empty s ≡ false → is_hash s ≡ true) → to_lower_case (trim s) ≡ s
attempt_unchanged [] h = unfold to_lower_case trim trim_start trim_end in refl
attempt_unchanged (c ∷ s) h = hash_unchanged (c ∷ s) (h refl)

height_unchanged : (s : String) → height_text (if not (is_empty s) then string s else undefined) ≡ s
unfolding text_of truthy
height_unchanged [] = refl
height_unchanged (c ∷ s) = refl

recovery_unchanged :
    (v : Value)
    → recovery_id (if truthy (recovery_id v) then recovery_id v else undefined) ≡ recovery_id v
recovery_unchanged v = elim (Bool-cases (truthy v)) [
  | inl e ↦ rw e (rw e (rw e refl))
  | inr e ↦ rw e (unfold truthy in refl)
]

recovery_allowed :
    (allow_recovery : Bool) (v : Value)
    → (is_nullish v || allow_recovery && is_hash (text_of v)) ≡ true
    → (is_nullish (if truthy (recovery_id v) then recovery_id v else undefined)
        || allow_recovery
          && is_hash (text_of (if truthy (recovery_id v) then recovery_id v else undefined)))
      ≡ true
recovery_allowed allow_recovery v h = elim (Bool-cases (truthy v)) [
  | inl e ↦ rw e (rw e h)
  | inr e ↦ rw e (unfold truthy in refl)
]

-- The parts of a kept entry are read from its object as they are.
reads_hash_back :
    (e : PendingEntry) → trim e.tx_hash ≡ e.tx_hash → entry_hash (entry_value (some e)) ≡ e.tx_hash
reads_hash_back e h =
    unfold get get_field entry_value in (ap trim (text_or_empty-string e.tx_hash) ∙ h)

reads_status_back :
    (e : PendingEntry) → trim e.status ≡ e.status → entry_status (entry_value (some e)) ≡ e.status
reads_status_back e h =
    unfold get get_field entry_value in (ap trim (text_or_empty-string e.status) ∙ h)

reads_attempt_back :
    (e : PendingEntry)
    → (is_empty e.attempt_id ≡ false → is_hash e.attempt_id ≡ true)
    → entry_attempt (entry_value (some e)) ≡ e.attempt_id
reads_attempt_back e h =
    ap (λ v. to_lower_case (trim (text_or_empty v))) (read_attempt e)
    ∙ ap (λ s. to_lower_case (trim s)) (kept_text e.attempt_id)
    ∙ attempt_unchanged e.attempt_id h

attempt_of_identity :
    (allow_recovery : Bool) (status attempt_id tx_hash : String)
    → is_pending_identity allow_recovery status attempt_id tx_hash ≡ true
    → is_empty attempt_id ≡ false
    → is_hash attempt_id ≡ true
unfolding is_pending_identity
attempt_of_identity allow_recovery status attempt_id tx_hash h k = ground (arith, h, k)

reads_back :
    (allow_recovery : Bool) (entry : Value) (evidence : Option CheckTxEvidence)
    → is_pending_identity allow_recovery
        (entry_status entry)
        (entry_attempt entry)
        (entry_hash entry)
      ≡ true
    → (is_nullish (get "evmRecoveryId" entry)
        || allow_recovery && is_hash (text_of (get "evmRecoveryId" entry)))
      ≡ true
    → normalized_check_tx_evidence entry (normalized_status (entry_status entry)) (entry_hash entry)
      ≡ ok evidence
    → read_entry allow_recovery (entry_value (some (kept_entry entry evidence)))
      ≡ ok (kept_entry entry evidence)
reads_back allow_recovery entry evidence h r k =
    let e = kept_entry entry evidence in
    let hash = reads_hash_back e (trim-trim (text_or_empty (get "txHash" entry))) in
    let status = reads_status_back e (
      normalized_status-trimmed (entry_status entry)
        (trim-trim (text_or_empty (get "status" entry)))) in
    let attempt = reads_attempt_back e (
      attempt_of_identity allow_recovery (entry_status entry) (entry_attempt entry)
        (entry_hash entry) h) in
    rw
      (
        hash,
        status,
        attempt,
        normalized_status-normalized_status (entry_status entry),
        read_recovery e,
        read_height e,
      )
      (rw
        (
          identity_again allow_recovery (entry_status entry) (entry_attempt entry)
              (entry_hash entry) h,
          recovery_allowed allow_recovery (get "evmRecoveryId" entry) r,
          evidence_kept_again entry e k,
          height_unchanged e.height,
          recovery_unchanged (get "evmRecoveryId" entry),
        )
        refl)

object_is_given : (e : PendingEntry) → is_nullish (entry_value (some e)) ≡ false
unfolding entry_value
object_is_given e = refl

accepts :
    (allow_recovery : Bool) (e : PendingEntry)
    → read_entry allow_recovery (entry_value (some e)) ≡ ok e
    → normalized_pending_entry allow_recovery (entry_value (some e)) ≡ ok (some e)
unfolding normalized_pending_entry choose
accepts allow_recovery e h = rw (object_is_given e) (rw h refl)

same_entry : {a b : PendingEntry} → ok (some a) ≡ ok (some b) → a ≡ b
same_entry p = cc

-- What an entry was normalized to is normalized to itself: written down and read again, every kept entry
-- is the same.
pub normalized_again :
    (allow_recovery : Bool) (entry : Value) (e : PendingEntry)
    → normalized_pending_entry allow_recovery entry ≡ ok (some e)
    → normalized_pending_entry allow_recovery (entry_value (some e)) ≡ ok (some e)
unfolding normalized_pending_entry choose
normalized_again allow_recovery entry e h = elim (Bool-cases (is_nullish entry)) [
  | inl absent ↦ absurd (nothing (rw absent at h))
  | inr given_ ↦
      let (kept, r, h₁) = >>=-eq-ok (read_entry allow_recovery entry) _ (rw given_ at h) in
      let (identity, r₁) =
        requiring
          (is_pending_identity allow_recovery (entry_status entry) (entry_attempt entry)
            (entry_hash entry))
          _ _ r in
      let (recovery, r₂) =
        requiring
          (is_nullish (get "evmRecoveryId" entry)
            || allow_recovery && is_hash (text_of (get "evmRecoveryId" entry)))
          _ _ r₁ in
      let (evidence, checked, r₃) =
        >>=-eq-ok
          (normalized_check_tx_evidence entry (normalized_status (entry_status entry))
            (entry_hash entry))
          _ r₂ in
      let again = reads_back allow_recovery entry evidence identity recovery checked in
      subst (λ x. normalized_pending_entry allow_recovery (entry_value (some x)) ≡ ok (some x))
        (ok_injective r₃ ∙ same_entry h₁) (accepts allow_recovery (kept_entry entry evidence) again)
]
  where
    nothing : ok none ≢ ok (some e)
    nothing p = cc

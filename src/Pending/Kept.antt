-- ===== src/Pending/Kept.antt =====
-- What the entries that are kept are like: public/public-pending-tx-store.js.
use clairveil_samples.Js.{
  Value, get, has_own, is_empty, is_hash, is_nullish, is_true, null, text_of, truthy, undefined,
}
use clairveil_samples.Pending.Entries.{
  CheckTxEvidence, PendingEntry, entry_attempt, entry_hash, entry_status, evidence_fields,
  evidence_or_throw, is_pending_identity, is_tx_hash, normalized_check_tx_evidence,
  normalized_pending_entry, normalized_status, pending_codespace, plain_codespace,
  provider_evidence, read_entry, recovery_id, unresolved_statuses,
}
use clairveil_samples.Prelude.{
  >>=-eq-ok, Bool, Bool-cases, List, Option, String, [], and-eq-true, ap, arith, choose, eq_iff,
  false, has, inl, inr, ltb, ltb→lt, none, not, ok, ok_injective, refl, requiring, some, some_of,
  subst, sym, true, ℕ, ◌&&◌, ◌<◌, ◌===◌, ◌||◌, ◌∙◌, ◌∷◌, ◌≡◌, ◌≢◌, ◌⊎◌,
}
use clairveil_samples.Prelude.Sets.{has-All}
use clairveil_samples.Status.Cosmos.{canonical_cosmos_tx_code}

abbrev final_statuses : List String
final_statuses = "attempting" ∷ "submitted" ∷ "unknown" ∷ "recovery-pending" ∷ []

-- The evidence of an entry with this status and hash.
abbrev EvidenceKept : String → String → Option CheckTxEvidence → Type 0
EvidenceKept status tx_hash none = Unit
EvidenceKept status tx_hash (some e) =
    (status ≡ "unknown") × (is_empty tx_hash ≡ false) × (0 < e.provider_code)

-- The recovery id of a deposit: none, or a hash where recovery is allowed.
abbrev RecoveryKept : Bool → Value → Type 0
RecoveryKept allow_recovery v =
    (v ≡ null) ⊎ ((allow_recovery ≡ true) × (is_hash (text_of v) ≡ true))

-- An entry whose outcome is not known: an attempt is known by its id and has no hash yet, any other
-- entry has an exact hash, and evidence of a rejection belongs to an unknown outcome.
pub record Kept (allow_recovery : Bool) (e : PendingEntry) : Type 0 where
  pub status : has e.status final_statuses ≡ true
  pub recovery : e.status ≡ "recovery-pending" → allow_recovery ≡ true
  pub attempted :
      e.status ≡ "attempting" → (is_hash e.attempt_id ≡ true) × (is_empty e.tx_hash ≡ true)
  pub exact : e.status ≢ "attempting" → is_tx_hash e.tx_hash ≡ true
  pub attempt : is_empty e.attempt_id ≡ false → is_hash e.attempt_id ≡ true
  pub evidence : EvidenceKept e.status e.tx_hash e.evidence
  pub recovery_kept : RecoveryKept allow_recovery e.evm_recovery_id

truthy_is_given : (v : Value) → truthy v ≡ true → is_nullish v ≡ false
unfolding truthy
truthy_is_given undefined h = cc
truthy_is_given null h = cc
truthy_is_given _ h = refl

recovery_id-RecoveryKept :
    (allow_recovery : Bool) (v : Value)
    → (is_nullish v || allow_recovery && is_hash (text_of v)) ≡ true
    → RecoveryKept allow_recovery (recovery_id v)
recovery_id-RecoveryKept allow_recovery v h = elim (Bool-cases (truthy v)) [
  | inr e ↦ rw e (inl refl)
  | inl e ↦ rw e (inr (and-eq-true _ _ (ground (arith, h, truthy_is_given v e))))
]

evidence_or_throw-positive :
    (code : Option ℕ) (codespace : Option String) (e : CheckTxEvidence)
    → evidence_or_throw (provider_evidence code codespace) ≡ ok (some e)
    → 0 < e.provider_code
evidence_or_throw-positive none codespace e h = cc
evidence_or_throw-positive (some n) none e h = cc
evidence_or_throw-positive (some n) (some codespace) e h =
    elim (Bool-cases (ltb 0 n && plain_codespace codespace)) [
      | inl f ↦ positive n codespace (and-eq-true _ _ f).0 e (rw f at h)
      | inr f ↦ absurd (refused (rw f at h))
    ]
  where
    refused : {e : CheckTxEvidence} → evidence_or_throw none ≢ ok (some e)
    refused h = cc

    same : {d e : CheckTxEvidence} → ok (some d) ≡ ok (some e) → d ≡ e
    same h = cc

    positive :
        (n : ℕ) (codespace : String)
        → ltb 0 n ≡ true
        → (e : CheckTxEvidence)
        → ok (some (record { provider_code = n; provider_codespace = codespace })) ≡ ok (some e)
        → 0 < e.provider_code
    positive n codespace f e h =
        subst (λ (x : CheckTxEvidence). 0 < x.provider_code) (same h) (ltb→lt 0 n f)

evidence-EvidenceKept :
    (entry : Value) (status tx_hash : String) (evidence : Option CheckTxEvidence)
    → normalized_check_tx_evidence entry status tx_hash ≡ ok evidence
    → EvidenceKept status tx_hash evidence
unfolding normalized_check_tx_evidence choose
evidence-EvidenceKept entry status tx_hash none h = tt
evidence-EvidenceKept entry status tx_hash (some e) h =
    elim (Bool-cases (not (some_of (λ name. has_own name entry) evidence_fields))) [
      | inl none_given ↦ absurd (nothing (rw none_given at h))
      | inr given_ ↦
          let (checks, h₁) =
            requiring
              (status === "unknown"
                && not (is_empty tx_hash)
                && is_true (get "rpcInvoked" entry)
                && is_true (get "checkTxRejected" entry))
              _ _ (rw given_ at h) in
          (
            (eq_iff status "unknown").0 (ground (arith, checks)),
            ground (arith, checks),
            evidence_or_throw-positive (canonical_cosmos_tx_code (get "providerCode" entry))
                (pending_codespace (get "providerCodespace" entry)) e h₁,
          )
    ]
  where
    nothing : ok none ≢ ok (some e)
    nothing p = cc

-- A status that is not "unknown" is the given one.
as_given :
    (wanted status : String)
    → wanted ≢ "unknown"
    → normalized_status status ≡ wanted
    → status ≡ wanted
as_given wanted status other h = elim (Bool-cases (status === "checking")) [
  | inl e ↦ absurd (other (sym (rw e at h)))
  | inr e ↦ rw e at h
]

identity_of_unresolved :
    (allow_recovery : Bool) (status attempt_id tx_hash : String) (evidence : Option CheckTxEvidence)
    (height : String) (id : Value)
    → is_pending_identity allow_recovery status attempt_id tx_hash ≡ true
    → EvidenceKept (normalized_status status) tx_hash evidence
    → RecoveryKept allow_recovery id
    → Kept allow_recovery (record {
      tx_hash = tx_hash;
      status = normalized_status status;
      attempt_id = attempt_id;
      height = height;
      evm_recovery_id = id;
      evidence = evidence;
    })
unfolding is_pending_identity
identity_of_unresolved allow_recovery status attempt_id tx_hash evidence height id h k l = record {
  status =
      has-All (λ s. has (normalized_status s) final_statuses ≡ true) status unresolved_statuses
        (refl, (refl, (refl, (refl, (refl, tt))))) (ground (arith, h));
  recovery = λ e.
      ground (
        arith,
        h,
        as_given "recovery-pending" status (λ p. cc) e,
        eq_iff status "recovery-pending",
      );
  attempted = λ e.
      let is_attempting =
        (eq_iff status "attempting").1 (as_given "attempting" status (λ p. cc) e) in
      (ground (arith, h, is_attempting), ground (arith, h, is_attempting));
  exact = λ other. elim (Bool-cases (status === "attempting")) [
    | inl e ↦ absurd (other (ap normalized_status ((eq_iff status "attempting").0 e)))
    | inr e ↦ ground (arith, h, e)
  ];
  attempt = λ given_. ground (arith, h, given_);
  evidence = k;
  recovery_kept = l;
}

-- Every entry that is kept is one whose outcome is not known: of the statuses attempting, submitted,
-- unknown and recovery-pending, the last only where it is allowed; an attempt with its id and no hash, or
-- an exact hash; with evidence of a rejection, by a positive code, only if the outcome is unknown; and
-- with a recovery id, which is a hash, only where recovery is allowed.
pub normalized_pending_entry-Kept :
    (allow_recovery : Bool) (entry : Value) (e : PendingEntry)
    → normalized_pending_entry allow_recovery entry ≡ ok (some e)
    → Kept allow_recovery e
unfolding normalized_pending_entry choose
normalized_pending_entry-Kept allow_recovery entry e h = elim (Bool-cases (is_nullish entry)) [
  | inl e ↦ absurd (nothing (rw e at h))
  | inr given_ ↦
      let (kept, r, h₁) = >>=-eq-ok (read_entry allow_recovery entry) _ (rw given_ at h) in
      let (is_identity, r₁) =
        requiring
          (is_pending_identity allow_recovery (entry_status entry) (entry_attempt entry)
            (entry_hash entry))
          _ _ r in
      let (recovery, r₂) =
        requiring
          (is_nullish (get "evmRecoveryId" entry)
            || allow_recovery && is_hash (text_of (get "evmRecoveryId" entry)))
          _ _ r₁ in
      let (evidence, checked, r₃) =
        >>=-eq-ok
          (normalized_check_tx_evidence entry (normalized_status (entry_status entry))
            (entry_hash entry))
          _ r₂ in
      subst (Kept allow_recovery) (ok_injective r₃ ∙ same h₁) (
        identity_of_unresolved allow_recovery (entry_status entry) (entry_attempt entry)
          (entry_hash entry) evidence _ _ is_identity
          (evidence-EvidenceKept entry _ _ evidence checked)
          (recovery_id-RecoveryKept allow_recovery (get "evmRecoveryId" entry) recovery))
]
  where
    nothing : ok none ≢ ok (some e)
    nothing p = cc

    same : {d e : PendingEntry} → ok (some d) ≡ ok (some e) → d ≡ e
    same h = cc

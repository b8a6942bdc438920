-- ===== src/Pending/Again.antt =====
-- A kept entry is read back as it was: public/public-pending-tx-store.js.
use Prim.Native.String.{String, [], ◌∷◌}
use clairveil_samples.Js.{
  Value, array, bigint, boolean, decimal_after, decimal_after-to_decimal, end, fraction, get,
  get_field, has_field, has_own, infinity, is_canonical_decimal, is_empty, is_positive_decimal,
  is_positive_decimal-to_decimal, is_true, max_safe_integer, minus_bigint, nan, nat, neg, null,
  number, object, safe_nat, string, to_decimal, trim, trim-trim, trim_end, trim_start, undefined,
}
use clairveil_samples.Pending.Entries.{
  CheckTxEvidence, PendingEntry, evidence_fields, evidence_or_throw, normalized_check_tx_evidence,
  pending_codespace, plain_codespace, provider_evidence,
}
use clairveil_samples.Pending.Reading.{IsInEvidence, read_evidence}
use clairveil_samples.Pending.Store.{entry_value, evidence_value, field_if}
use clairveil_samples.Prelude.{
  Bool, Bool-cases, Option, Option-cases, and-eq-true, ap, arith, choose, eq_iff, false,
  if◌then◌else◌, inl, inr, leb, ltb, ltb→lt, none, not, ok, refl, requiring, some, some_of, subst,
  sym, true, ℕ, ◌&&◌, ◌<◌, ◌===◌, ◌∙◌, ◌≡◌, ◌≢◌,
}
use clairveil_samples.Server.Serializer.{is_unknown}
use clairveil_samples.Status.Cosmos.{canonical_cosmos_tx_code}
use clairveil_samples.Withdraw.Match.{trimmed}

-- Evidence that was read: its code is safe and positive, its codespace trimmed and plain.
record EvidenceRead (e : CheckTxEvidence) : Type 0 where
  code : (ltb 0 e.provider_code && leb e.provider_code max_safe_integer) ≡ true
  codespace : trim e.provider_codespace ≡ e.provider_codespace
  plain : plain_codespace e.provider_codespace ≡ true

guarded : (b : Bool) (m n : ℕ) → (if b then some m else none) ≡ some n → (b ≡ true) × (m ≡ n)
guarded true m n h = (refl, cc h)
guarded false m n h = absurd (nothing h)
  where
    nothing : none ≢ some n
    nothing p = cc

canonical_cosmos_tx_code_small :
    (v : Value) (n : ℕ) → canonical_cosmos_tx_code v ≡ some n → leb n max_safe_integer ≡ true
unfolding canonical_cosmos_tx_code safe_nat
canonical_cosmos_tx_code_small (number (nat m)) n h =
    let (small, same) = guarded (leb m max_safe_integer) m n h in
    subst (λ k. leb k max_safe_integer ≡ true) same small
canonical_cosmos_tx_code_small (number (neg m)) n h = cc
canonical_cosmos_tx_code_small (number (fraction minus m text)) n h = cc
canonical_cosmos_tx_code_small (number (infinity minus)) n h = cc
canonical_cosmos_tx_code_small (number nan) n h = cc
canonical_cosmos_tx_code_small (string s) n h =
    let (checks, same) =
      guarded (is_canonical_decimal s && leb (decimal_after 0 s) max_safe_integer)
        (decimal_after 0 s) n h in
    subst (λ k. leb k max_safe_integer ≡ true) same
      (and-eq-true (is_canonical_decimal s) _ checks).1
canonical_cosmos_tx_code_small undefined n h = cc
canonical_cosmos_tx_code_small null n h = cc
canonical_cosmos_tx_code_small (boolean b) n h = cc
canonical_cosmos_tx_code_small (bigint m) n h = cc
canonical_cosmos_tx_code_small (minus_bigint m) n h = cc
canonical_cosmos_tx_code_small (array vs) n h = cc
canonical_cosmos_tx_code_small (object fs) n h = cc

same_text : {a b : String} → some a ≡ some b → a ≡ b
same_text h = cc

trim_empty : trim "" ≡ ""
unfolding trim trim_start trim_end
trim_empty = refl

pending_codespace-trimmed : (v : Value) (s : String) → pending_codespace v ≡ some s → trim s ≡ s
unfolding pending_codespace
pending_codespace-trimmed (string t) s h = subst (λ x. trim x ≡ x) (same_text h) (trim-trim t)
pending_codespace-trimmed undefined s h = subst (λ x. trim x ≡ x) (same_text h) trim_empty
pending_codespace-trimmed null s h = subst (λ x. trim x ≡ x) (same_text h) trim_empty
pending_codespace-trimmed (boolean b) s h = cc
pending_codespace-trimmed (number n) s h = cc
pending_codespace-trimmed (bigint m) s h = cc
pending_codespace-trimmed (minus_bigint m) s h = cc
pending_codespace-trimmed (array vs) s h = cc
pending_codespace-trimmed (object fs) s h = cc

positive_is_canonical : (s : String) → is_positive_decimal s ≡ true → is_canonical_decimal s ≡ true
unfolding is_canonical_decimal
positive_is_canonical [] h = unfold is_positive_decimal in h
positive_is_canonical (c ∷ s) h = ground (arith, h)

canonical_cosmos_tx_code-to_decimal :
    (n : ℕ)
    → 0 < n
    → leb n max_safe_integer ≡ true
    → canonical_cosmos_tx_code (string (to_decimal n)) ≡ some n
unfolding canonical_cosmos_tx_code
canonical_cosmos_tx_code-to_decimal n h k =
    rw (decimal_after-to_decimal n)
      (rw (k, positive_is_canonical (to_decimal n) (is_positive_decimal-to_decimal n h)) refl)

codespace_again :
    (s : String)
    → trim s ≡ s
    → pending_codespace (
        get_field "providerCodespace"
          (field_if (not (is_empty s)) "providerCodespace" (string s) end))
      ≡ some s
unfolding pending_codespace get_field
codespace_again [] h = refl
codespace_again (c ∷ s) h = ap some h

-- The evidence of the entry is read again from its fields.
evidence_again :
    (e : PendingEntry) (ev : CheckTxEvidence)
    → e.evidence ≡ some ev
    → EvidenceRead ev
    → e.status ≡ "unknown"
    → is_empty e.tx_hash ≡ false
    → normalized_check_tx_evidence (entry_value (some e)) e.status e.tx_hash ≡ ok (some ev)
unfolding normalized_check_tx_evidence choose get_field has_field
evidence_again e ev h r s t =
    let in_evidence : (k : String)
        → IsInEvidence k
        → get k (entry_value (some e)) ≡ get_field k (evidence_value (some ev)) =
      λ k i.
        (read_evidence k e i).0
        ∙ ap (λ (o : Option CheckTxEvidence). get_field k (evidence_value o)) h in
    let first : has_own "rpcInvoked" (entry_value (some e)) ≡ true =
      (read_evidence "rpcInvoked" e (refl, refl, refl, refl, refl)).1
      ∙ ap (λ (o : Option CheckTxEvidence). has_field "rpcInvoked" (evidence_value o)) h in
    let (positive, small) = and-eq-true (ltb 0 ev.provider_code) _ r.code in
    rw
      (
        first,
        in_evidence "rpcInvoked" (refl, refl, refl, refl, refl),
        in_evidence "checkTxRejected" (refl, refl, refl, refl, refl),
        in_evidence "providerCode" (refl, refl, refl, refl, refl),
        in_evidence "providerCodespace" (refl, refl, refl, refl, refl),
        s,
        t,
      )
      (rw
        (
          canonical_cosmos_tx_code-to_decimal ev.provider_code (ltb→lt 0 ev.provider_code positive)
              small,
          codespace_again ev.provider_codespace r.codespace,
          positive,
          r.plain,
        )
        refl)

no_evidence_again :
    (e : PendingEntry)
    → e.evidence ≡ none
    → normalized_check_tx_evidence (entry_value (some e)) e.status e.tx_hash ≡ ok none
unfolding normalized_check_tx_evidence has_field choose
no_evidence_again e h =
    let none_of : (k : String) → IsInEvidence k → has_own k (entry_value (some e)) ≡ false = λ k i.
      (read_evidence k e i).1
      ∙ ap (λ (o : Option CheckTxEvidence). has_field k (evidence_value o)) h in
    rw (none_of "rpcInvoked" (refl, refl, refl, refl, refl)) (
      rw (none_of "checkTxRejected" (refl, refl, refl, refl, refl)) (
        rw (none_of "providerCode" (refl, refl, refl, refl, refl))
          (rw (none_of "providerCodespace" (refl, refl, refl, refl, refl)) refl)))

evidence_was_read :
    (code : Option ℕ) (codespace : Option String) (ev : CheckTxEvidence)
    → ((n : ℕ) → code ≡ some n → leb n max_safe_integer ≡ true)
    → ((s : String) → codespace ≡ some s → trim s ≡ s)
    → evidence_or_throw (provider_evidence code codespace) ≡ ok (some ev)
    → EvidenceRead ev
evidence_was_read none codespace ev small trimmed h = cc
evidence_was_read (some n) none ev small trimmed h = cc
evidence_was_read (some n) (some s) ev small trimmed h =
    elim (Bool-cases (ltb 0 n && plain_codespace s)) [
      | inl f ↦ subst EvidenceRead (same_evidence (rw f at h)) (record {
        code = ground (arith, f, small n refl);
        codespace = trimmed s refl;
        plain = (and-eq-true (ltb 0 n) _ f).1;
      })
      | inr f ↦ absurd (refused (rw f at h))
    ]
  where
    refused : evidence_or_throw none ≢ ok (some ev)
    refused p = cc

    same_evidence : {a b : CheckTxEvidence} → ok (some a) ≡ ok (some b) → a ≡ b
    same_evidence p = cc

evidence_checks :
    (entry : Value) (status tx_hash : String) (ev : CheckTxEvidence)
    → normalized_check_tx_evidence entry status tx_hash ≡ ok (some ev)
    → (status ≡ "unknown") × (is_empty tx_hash ≡ false) × EvidenceRead ev
unfolding normalized_check_tx_evidence choose
evidence_checks entry status tx_hash ev h =
    elim (Bool-cases (not (some_of (λ name. has_own name entry) evidence_fields))) [
      | inl none_given ↦ absurd (nothing (rw none_given at h))
      | inr given_ ↦
          let (checks, h₁) =
            requiring
              (status === "unknown"
                && not (is_empty tx_hash)
                && is_true (get "rpcInvoked" entry)
                && is_true (get "checkTxRejected" entry))
              _ _ (rw given_ at h) in
          (
            (eq_iff status "unknown").0 (ground (arith, checks)),
            ground (arith, checks),
            evidence_was_read (canonical_cosmos_tx_code (get "providerCode" entry))
                (pending_codespace (get "providerCodespace" entry)) ev
                (canonical_cosmos_tx_code_small (get "providerCode" entry))
                (pending_codespace-trimmed (get "providerCodespace" entry)) h₁,
          )
    ]
  where
    nothing : ok none ≢ ok (some ev)
    nothing p = cc

-- The evidence that an entry was kept with is what reading the kept entry gives.
pub evidence_kept_again :
    (entry : Value) (e : PendingEntry)
    → normalized_check_tx_evidence entry e.status e.tx_hash ≡ ok e.evidence
    → normalized_check_tx_evidence (entry_value (some e)) e.status e.tx_hash ≡ ok e.evidence
evidence_kept_again entry e h = elim (Option-cases e.evidence) [
  | inl absent ↦ no_evidence_again e absent ∙ ap ok (sym absent)
  | inr (ev, given_) ↦
      let (is_unknown, has_hash, read) =
        evidence_checks entry e.status e.tx_hash ev (h ∙ ap ok given_) in
      evidence_again e ev given_ read is_unknown has_hash ∙ ap ok (sym given_)
]

-- ===== src/Pending/Reading.antt =====
-- The properties of the object that stands for a kept entry: public/public-pending-tx-store.js.
use Prim.Native.String.{String, [], ◌∷◌}
use clairveil_samples.Js.{
  Fields, Value, end, get, get_field, has_field, has_own, is_empty, string, text_of, text_or_empty,
  truthy, undefined,
}
use clairveil_samples.Pending.Entries.{CheckTxEvidence, PendingEntry}
use clairveil_samples.Pending.Store.{entry_value, evidence_value, field_if}
use clairveil_samples.Prelude.{
  Bool, Option, eq_refl, false, if◌then◌else◌, none, not, refl, some, true, ◌===◌, ◌∙◌, ◌≡◌,
}

pub skip :
    (k name : String) (b : Bool) (v : Value) (fs : Fields)
    → (name === k) ≡ false
    → get_field k (field_if b name v fs) ≡ get_field k fs
unfolding get_field
skip k name true v fs h = rw h refl
skip k name false v fs h = refl

pub at_name :
    (k : String) (b : Bool) (v : Value) (fs : Fields)
    → get_field k fs ≡ undefined
    → get_field k (field_if b k v fs) ≡ (if b then v else undefined)
unfolding get_field
at_name k true v fs h = rw (eq_refl k) refl
at_name k false v fs h = h

has_skip :
    (k name : String) (b : Bool) (v : Value) (fs : Fields)
    → (name === k) ≡ false
    → has_field k (field_if b name v fs) ≡ has_field k fs
unfolding has_field
has_skip k name true v fs h = rw h refl
has_skip k name false v fs h = refl

-- The optional fields, from the recovery id on, from the height on, and all of them.
abbrev recovery_fields : PendingEntry → Fields
recovery_fields e =
    field_if (truthy e.evm_recovery_id) "evmRecoveryId" e.evm_recovery_id
      (evidence_value e.evidence)

abbrev height_fields : PendingEntry → Fields
height_fields e = field_if (not (is_empty e.height)) "height" (string e.height) (recovery_fields e)

-- A name that is none of the evidence.
abbrev IsOther : String → Type 0
IsOther k =
    (("rpcInvoked" === k) ≡ false)
    × (("checkTxRejected" === k) ≡ false)
    × (("providerCode" === k) ≡ false)
    × (("providerCodespace" === k) ≡ false)

not_in_evidence :
    (k : String) (evidence : Option CheckTxEvidence)
    → IsOther k
    → get_field k (evidence_value evidence) ≡ undefined
unfolding get_field
not_in_evidence k none h = refl
not_in_evidence k (some e) (a, b, c, d) =
    rw (a, b, c)
      (skip k "providerCodespace" (not (is_empty e.provider_codespace))
        (string e.provider_codespace) end d)

pub read_recovery :
    (e : PendingEntry)
    → get "evmRecoveryId" (entry_value (some e))
      ≡ (if truthy e.evm_recovery_id then e.evm_recovery_id else undefined)
unfolding get get_field entry_value
read_recovery e =
    skip "evmRecoveryId" "attemptId" (not (is_empty e.attempt_id)) (string e.attempt_id)
      (height_fields e) refl
    ∙ skip "evmRecoveryId" "height" (not (is_empty e.height)) (string e.height) (recovery_fields e)
        refl
    ∙ at_name "evmRecoveryId" (truthy e.evm_recovery_id) e.evm_recovery_id
        (evidence_value e.evidence)
        (not_in_evidence "evmRecoveryId" e.evidence (refl, refl, refl, refl))

pub read_height :
    (e : PendingEntry)
    → get "height" (entry_value (some e))
      ≡ (if not (is_empty e.height) then string e.height else undefined)
unfolding get get_field entry_value
read_height e =
    skip "height" "attemptId" (not (is_empty e.attempt_id)) (string e.attempt_id) (height_fields e)
      refl
    ∙ at_name "height" (not (is_empty e.height)) (string e.height) (recovery_fields e) (
        skip "height" "evmRecoveryId" (truthy e.evm_recovery_id) e.evm_recovery_id
          (evidence_value e.evidence) refl
        ∙ not_in_evidence "height" e.evidence (refl, refl, refl, refl))

pub read_attempt :
    (e : PendingEntry)
    → get "attemptId" (entry_value (some e))
      ≡ (if not (is_empty e.attempt_id) then string e.attempt_id else undefined)
unfolding get get_field entry_value
read_attempt e =
    at_name "attemptId" (not (is_empty e.attempt_id)) (string e.attempt_id) (height_fields e) (
      skip "attemptId" "height" (not (is_empty e.height)) (string e.height) (recovery_fields e) refl
      ∙ skip "attemptId" "evmRecoveryId" (truthy e.evm_recovery_id) e.evm_recovery_id
          (evidence_value e.evidence) refl
      ∙ not_in_evidence "attemptId" e.evidence (refl, refl, refl, refl))

-- The evidence, read through the optional fields.
abbrev pub IsInEvidence : String → Type 0
IsInEvidence k =
    (("txHash" === k) ≡ false)
    × (("status" === k) ≡ false)
    × (("attemptId" === k) ≡ false)
    × (("height" === k) ≡ false)
    × (("evmRecoveryId" === k) ≡ false)

pub read_evidence :
    (k : String) (e : PendingEntry)
    → IsInEvidence k
    → (get k (entry_value (some e)) ≡ get_field k (evidence_value e.evidence))
      × (has_own k (entry_value (some e)) ≡ has_field k (evidence_value e.evidence))
unfolding get get_field has_own has_field entry_value
read_evidence k e (a, b, c, d, f) = (
  rw (a, b)
      (skip k "attemptId" (not (is_empty e.attempt_id)) (string e.attempt_id) (height_fields e) c
        ∙ skip k "height" (not (is_empty e.height)) (string e.height) (recovery_fields e) d
        ∙ skip k "evmRecoveryId" (truthy e.evm_recovery_id) e.evm_recovery_id
            (evidence_value e.evidence) f),
  rw (a, b)
      (has_skip k "attemptId" (not (is_empty e.attempt_id)) (string e.attempt_id) (height_fields e)
          c
        ∙ has_skip k "height" (not (is_empty e.height)) (string e.height) (recovery_fields e) d
        ∙ has_skip k "evmRecoveryId" (truthy e.evm_recovery_id) e.evm_recovery_id
            (evidence_value e.evidence) f),
)

-- A text that is left out where it is empty is read as it was.
pub kept_text : (s : String) → text_or_empty (if not (is_empty s) then string s else undefined) ≡ s
unfolding text_or_empty text_of truthy
kept_text [] = refl
kept_text (c ∷ s) = refl

-- ===== src/Pending/Entries.antt =====
-- public/public-pending-tx-store.js: the entries.
use clairveil_samples.Js.{
  Value, every_char, get, has_own, is_empty, is_hash, is_nullish, is_true, null, size, string,
  strip_0x, text_of, text_or_empty, to_lower_case, trim, truthy, undefined,
}
use clairveil_samples.Prelude.{
  Bool, List, Option, Result, String, [], choose, false, has, if◌then◌else◌, leb, ltb, none, not,
  ok, require, some, some_of, throw, ℕ, ◌&&◌, ◌===◌, ◌==◌, ◌>>=◌, ◌>>◌, ◌||◌, ◌∷◌,
}
use clairveil_samples.Status.Cosmos.{canonical_cosmos_tx_code}

abbrev pub unresolved_statuses : List String
unresolved_statuses = "attempting" ∷ "submitted" ∷ "unknown" ∷ "checking" ∷ "recovery-pending" ∷ []

-- Evidence that CheckTx rejected the transaction; the codespace is left out where it is empty.
pub record CheckTxEvidence : Type 0 where
  pub provider_code : ℕ
  pub provider_codespace : String

-- An entry; an attempt id or a height that is empty, and a recovery id that is null, are left out.
pub record PendingEntry : Type 0 where
  pub tx_hash : String
  pub status : String
  pub attempt_id : String
  pub height : String
  pub evm_recovery_id : Value
  pub evidence : Option CheckTxEvidence

abbrev pub evidence_fields : List String
evidence_fields = "rpcInvoked" ∷ "checkTxRejected" ∷ "providerCode" ∷ "providerCodespace" ∷ []

abbrev is_control : ℕ → Bool
is_control c = leb c 0x1f || c == 0x7f

-- The codespace; `none` stands for null.
unfoldable pub pending_codespace : Value → Option String
pending_codespace undefined = some ""
pending_codespace null = some ""
pending_codespace (string s) = some (trim s)
pending_codespace _ = none

abbrev pub plain_codespace : String → Bool
plain_codespace s = leb (size s) 128 && every_char (λ c. not (is_control c)) s

-- The code and the codespace, where both can be kept.
abbrev pub provider_evidence : Option ℕ → Option String → Option CheckTxEvidence
provider_evidence (some n) (some codespace) =
    if ltb 0 n && plain_codespace codespace
    then some (record { provider_code = n; provider_codespace = codespace })
    else none
provider_evidence _ _ = none

abbrev invalid_evidence : {A : Type 0} → Result A
invalid_evidence = throw "pending CheckTx evidence is invalid"

abbrev pub evidence_or_throw : Option CheckTxEvidence → Result (Option CheckTxEvidence)
evidence_or_throw none = invalid_evidence
evidence_or_throw (some e) = ok (some e)

-- normalizedCheckTxEvidence; a provider code is a safe integer, or canonical decimal digits of one.
unfoldable pub normalized_check_tx_evidence :
    Value → String → String → Result (Option CheckTxEvidence)
normalized_check_tx_evidence entry status tx_hash =
    choose (not (some_of (λ name. has_own name entry) evidence_fields)) (ok none) (
      require
        (status === "unknown"
          && not (is_empty tx_hash)
          && is_true (get "rpcInvoked" entry)
          && is_true (get "checkTxRejected" entry))
        "pending CheckTx evidence is invalid"
      >> evidence_or_throw (
          provider_evidence (canonical_cosmos_tx_code (get "providerCode" entry))
            (pending_codespace (get "providerCodespace" entry))))

-- /^(0x)?[0-9a-fA-F]{64}$/
unfoldable pub is_tx_hash : String → Bool
is_tx_hash s = is_hash (to_lower_case (strip_0x s))

-- The tests on the status, the attempt and the hash, in the order of the source.
unfoldable pub is_pending_identity : Bool → String → String → String → Bool
is_pending_identity allow_recovery status attempt_id tx_hash =
    has status unresolved_statuses
    && not (status === "recovery-pending" && not allow_recovery)
    && not (status === "attempting" && (not (is_hash attempt_id) || not (is_empty tx_hash)))
    && not (not (status === "attempting") && not (is_tx_hash tx_hash))
    && not (not (is_empty attempt_id) && not (is_hash attempt_id))

abbrev pub normalized_status : String → String
normalized_status status = if status === "checking" then "unknown" else status

abbrev pub height_text : Value → String
height_text v = if truthy v then text_of v else ""

-- entry.evmRecoveryId, where it is truthy.
abbrev pub recovery_id : Value → Value
recovery_id v = if truthy v then v else null

abbrev pub entry_hash : Value → String
entry_hash entry = trim (text_or_empty (get "txHash" entry))

abbrev pub entry_attempt : Value → String
entry_attempt entry = to_lower_case (trim (text_or_empty (get "attemptId" entry)))

abbrev pub entry_status : Value → String
entry_status entry = trim (text_or_empty (get "status" entry))

abbrev pub kept_entry : Value → Option CheckTxEvidence → PendingEntry
kept_entry entry evidence = record {
  tx_hash = entry_hash entry;
  status = normalized_status (entry_status entry);
  attempt_id = entry_attempt entry;
  height = height_text (get "height" entry);
  evm_recovery_id = recovery_id (get "evmRecoveryId" entry);
  evidence = evidence;
}

abbrev pub read_entry : Bool → Value → Result PendingEntry
read_entry allow_recovery entry =
    require
      (is_pending_identity allow_recovery (entry_status entry) (entry_attempt entry)
        (entry_hash entry))
      "pending transaction entry is invalid"
    >> (require
          (is_nullish (get "evmRecoveryId" entry)
            || allow_recovery && is_hash (text_of (get "evmRecoveryId" entry)))
          "pending EVM deposit recovery identity is invalid"
        >> (normalized_check_tx_evidence entry (normalized_status (entry_status entry))
              (entry_hash entry)
            >>= λ evidence. ok (kept_entry entry evidence)))

-- normalizedPendingEntry; `none` stands for null.
unfoldable pub normalized_pending_entry : Bool → Value → Result (Option PendingEntry)
normalized_pending_entry allow_recovery entry =
    choose (is_nullish entry) (ok none) (read_entry allow_recovery entry >>= λ e. ok (some e))

abbrev exact_hash : Option PendingEntry → Result PendingEntry
exact_hash none = throw "privacy pending transaction entry requires an exact transaction hash"
exact_hash (some e) =
    require (not (e.status === "attempting") && not (is_empty e.tx_hash))
      "privacy pending transaction entry requires an exact transaction hash"
    >> ok e

-- normalizedPrivacyPendingEntry
unfoldable pub normalized_privacy_pending_entry : Value → Result PendingEntry
normalized_privacy_pending_entry entry = normalized_pending_entry false entry >>= exact_hash

-- ===== src/Pending/Store.antt =====
-- public/public-pending-tx-store.js: loading and saving. A storage holds at most one text for a key; it
-- is the text, or nothing.
use clairveil_samples.Js.{
  Fields, Value, boolean, end, field, get, has_own, is_empty, is_text, message, null, object,
  string, text_of, text_or_empty, to_decimal, to_lower_case, trim, truthy,
}
use clairveil_samples.Pending.Entries.{
  CheckTxEvidence, PendingEntry, normalized_pending_entry, normalized_privacy_pending_entry,
  unresolved_statuses,
}
use clairveil_samples.Prelude.{
  Bool, Option, Result, String, [], false, has, if◌then◌else◌, none, not, ok, require, some, throw,
  true, ◌&&◌, ◌===◌, ◌>>=◌, ◌>>◌, ◌∷◌,
}
use clairveil_samples.Recovery.Records.{given}

abbrev pub public_pending_tx_state_version : String
public_pending_tx_state_version = "clairveil-public-pending-tx-state-v4"

abbrev pub privacy_pending_tx_state_version : String
privacy_pending_tx_state_version = "clairveil-privacy-pending-tx-state-v1"

-- JSON.parse and JSON.stringify.
pub record Json : Type 0 where
  pub parse : String → Result Value
  pub stringify : Value → String

-- Whose state it is; a storage epoch that is left out is empty.
pub record Owner : Type 0 where
  pub profile_id : Value
  pub owner : Value
  pub storage_epoch : Value

abbrev lowered : Value → String
lowered v = to_lower_case (trim (text_or_empty v))

abbrev pending_key : String → Owner → String
pending_key kind o =
    let profile = trim (text_or_empty o.profile_id) in
    let owner = lowered o.owner in
    let epoch = lowered o.storage_epoch in
    if not (is_empty profile) && not (is_empty owner)
    then message (
        "clairveil:v0.3.1:"
        ∷ kind
        ∷ ":"
        ∷ profile
        ∷ ":"
        ∷ (if is_empty epoch then "" else message (epoch ∷ ":" ∷ []))
        ∷ owner
        ∷ [])
    else ""

-- publicPendingTxKey
unfoldable pub public_pending_tx_key : Owner → String
public_pending_tx_key o = pending_key "public-pending" o

-- privacyPendingTxKey
unfoldable pub privacy_pending_tx_key : Owner → String
privacy_pending_tx_key o = pending_key "privacy-pending" o

-- assertPendingIdentity
unfoldable pub assert_pending_identity : Value → String → Owner → Result (Unit {0})
assert_pending_identity value version o =
    require
      (is_text version (get "version" value)
        && is_text (text_or_empty o.profile_id) (get "profileId" value)
        && is_text (to_lower_case (text_or_empty o.owner)) (get "owner" value)
        && text_or_empty (get "storageEpoch" value)
          === to_lower_case (text_or_empty o.storage_epoch))
      "pending transaction identity does not match"

-- The entries of a public state, at least one.
pub record PublicPending : Type 0 where
  pub send : Option PendingEntry
  pub deposit : Option PendingEntry

abbrev pub is_none : Option PendingEntry → Bool
is_none none = true
is_none (some e) = false

unfoldable pub read_public_pending : Json → String → Owner → Result PublicPending
read_public_pending json raw o = json.parse raw >>= λ value.
    assert_pending_identity value public_pending_tx_state_version o
    >> (normalized_pending_entry false (get "send" value) >>= λ send.
        normalized_pending_entry true (get "deposit" value) >>= λ deposit.
        require (not (is_none send && is_none deposit)) "pending transaction state is empty"
        >> ok (record { send = send; deposit = deposit }))

-- An error of the reading is reported as this one.
abbrev pub reported : {A : Type 0} → String → Result A → Result (Option A)
reported problem (throw cause) = throw problem
reported problem (ok a) = ok (some a)

-- loadPublicPendingTxState; `none` stands for null.
unfoldable pub load_public_pending_tx_state :
    Json → Option String → Owner → Result (Option PublicPending)
unfolding read_public_pending
load_public_pending_tx_state json none o = ok none
load_public_pending_tx_state json (some raw) o =
    if is_empty raw
    then ok none
    else reported
        "Pending public transaction state is corrupt. Clear it only after checking wallet history and tx hashes."
        (read_public_pending json raw o)

-- loadPrivacyPendingTxState
unfoldable pub load_privacy_pending_tx_state :
    Json → Option String → Owner → Result (Option PendingEntry)
load_privacy_pending_tx_state json none o = ok none
load_privacy_pending_tx_state json (some raw) o =
    if is_empty raw
    then ok none
    else reported
        "The private Cosmos transaction fence is corrupt and cannot be cleared selectively. Keep it fail-closed and use a reviewed fresh-state reset only after checking wallet and chain history."
        (json.parse raw >>= λ value.
          assert_pending_identity value privacy_pending_tx_state_version o
          >> normalized_privacy_pending_entry (get "privacy" value))

abbrev pub field_if : Bool → String → Value → Fields → Fields
field_if given name v fs = if given then field name v fs else fs

abbrev pub evidence_value : Option CheckTxEvidence → Fields
evidence_value none = end
evidence_value (some e) = field "rpcInvoked" (boolean true) (
    field "checkTxRejected" (boolean true) (
      field "providerCode" (string (to_decimal e.provider_code)) (
        field_if (not (is_empty e.provider_codespace)) "providerCodespace"
          (string e.provider_codespace) end)))

-- The object that stands for an entry.
unfoldable pub entry_value : Option PendingEntry → Value
entry_value none = null
entry_value (some e) = object (
    field "txHash" (string e.tx_hash) (
      field "status" (string e.status) (
        field_if (not (is_empty e.attempt_id)) "attemptId" (string e.attempt_id) (
          field_if (not (is_empty e.height)) "height" (string e.height) (
            field_if (truthy e.evm_recovery_id) "evmRecoveryId" e.evm_recovery_id
              (evidence_value e.evidence))))))

-- An entry is only kept while its outcome is not known.
abbrev normalized_if_unresolved :
    (Value → Result (Option PendingEntry)) → Value → Result (Option PendingEntry)
normalized_if_unresolved normalize v =
    if has (text_or_empty (get "status" v)) unresolved_statuses then normalize v else ok none

abbrev as_some : {A : Type 0} → Result A → Result (Option A)
as_some (throw problem) = throw problem
as_some (ok a) = ok (some a)

abbrev pub owner_fields : String → Owner → Fields → Fields
owner_fields version o rest = field "version" (string version) (
    field "profileId" (string (text_or_empty o.profile_id)) (
      field "owner" (string (to_lower_case (text_or_empty o.owner))) (
        field_if (truthy o.storage_epoch) "storageEpoch"
          (string (to_lower_case (text_of o.storage_epoch))) rest)))

-- The object that is stored of the public entries.
unfoldable pub public_object : Owner → Option PendingEntry → Option PendingEntry → Value
public_object o send deposit = object (
    owner_fields public_pending_tx_state_version o
      (field "send" (entry_value send) (field "deposit" (entry_value deposit) end)))

-- What is stored of the entries; nothing where there is none.
unfoldable pub stored_public :
    Json → Owner → Option PendingEntry → Option PendingEntry → Option String
stored_public json o send deposit =
    if is_none send && is_none deposit
    then none
    else some (json.stringify (public_object o send deposit))

-- savePublicPendingTxState: what the storage holds under the key afterwards
unfoldable pub save_public_pending_tx_state : Json → Owner → Value → Result (Option String)
save_public_pending_tx_state json o state =
    require (not (has_own "privacy" state))
      "private Cosmos transaction fences require the separate privacy pending store"
    >> (normalized_if_unresolved (normalized_pending_entry false) (get "send" state) >>= λ send.
        normalized_if_unresolved (normalized_pending_entry true) (get "deposit" state)
        >>= λ deposit. ok (stored_public json o send deposit))

unfoldable pub stored_privacy : Json → Owner → Option PendingEntry → Option String
unfolding entry_value
stored_privacy json o none = none
stored_privacy json o (some e) = some (
    json.stringify (
      object (
        owner_fields privacy_pending_tx_state_version o
          (field "privacy" (entry_value (some e)) end))))

-- savePrivacyPendingTxState
unfoldable pub save_privacy_pending_tx_state : Json → Owner → Value → Result (Option String)
save_privacy_pending_tx_state json o privacy =
    normalized_if_unresolved (λ v. as_some (normalized_privacy_pending_entry v)) privacy >>= λ e.
    ok (stored_privacy json o e)

-- ===== src/Pending/Tests.antt =====
-- Runs of the pending transactions, and a theorem at a concrete input.
use clairveil_samples.Js.{
  Value, boolean, decimal_after, decimal_before, end, every_char, field, get, get_field, has_field,
  has_own, is_canonical_decimal, is_hash, is_positive_decimal, is_space, is_zero, lower_char, nat,
  null, number, number_text, object, size, string, strip_0x, text_of, text_or_empty, to_decimal,
  to_lower_case, trim, trim_end, trim_start, truthy, undefined,
}
use clairveil_samples.Pending.Entries.{
  PendingEntry, is_pending_identity, is_tx_hash, normalized_check_tx_evidence,
  normalized_pending_entry, pending_codespace,
}
use clairveil_samples.Pending.Kept.{Kept, normalized_pending_entry-Kept}
use clairveil_samples.Pending.Saved.{load-stored}
use clairveil_samples.Pending.Store.{
  Json, Owner, load_public_pending_tx_state, public_object, stored_public,
}
use clairveil_samples.Prelude.{String, choose, false, none, ok, refl, some, true, ◌≡◌}
use clairveil_samples.Status.Cosmos.{canonical_cosmos_tx_code}

abbrev pending_hash : String
pending_hash = "0x00000000000000000000000000000000000000000000000000000000000000Ab"

abbrev checking_send : Value
checking_send = object (
    field "txHash" (string pending_hash) (
      field "status" (string " checking ") (
        field "height" (number (nat 7)) (
          field "rpcInvoked" (boolean true)
            (field "checkTxRejected" (boolean true) (field "providerCode" (string "5") end))))))

abbrev unknown_entry : PendingEntry
unknown_entry = record {
  tx_hash = pending_hash;
  status = "unknown";
  attempt_id = "";
  height = "7";
  evm_recovery_id = null;
  evidence = some (record { provider_code = 5; provider_codespace = "" });
}

keeps_checking : normalized_pending_entry false checking_send ≡ ok (some unknown_entry)
unfolding normalized_pending_entry choose is_pending_identity normalized_check_tx_evidence
    canonical_cosmos_tx_code pending_codespace is_tx_hash is_hash strip_0x to_lower_case lower_char
    every_char size trim trim_start trim_end is_space text_or_empty text_of number_text to_decimal
    decimal_before decimal_after is_canonical_decimal is_positive_decimal truthy is_zero get
    get_field has_own has_field
keeps_checking = refl

normalized_pending_entry-Kept_example : Kept false unknown_entry
normalized_pending_entry-Kept_example =
    normalized_pending_entry-Kept false checking_send unknown_entry keeps_checking

no_deposit : normalized_pending_entry true null ≡ ok none
unfolding normalized_pending_entry choose
no_deposit = refl

abbrev owner : Owner
owner = record { profile_id = string "local"; owner = string "0xAB"; storage_epoch = undefined }

-- A storage of one text.
abbrev json : Json
json = record {
  parse = λ s. ok (public_object owner (some unknown_entry) none);
  stringify = λ v. "stored";
}

load-stored_example :
    load_public_pending_tx_state json (stored_public json owner (some unknown_entry) none) owner
    ≡ ok (some (record { send = some unknown_entry; deposit = none }))
load-stored_example =
    load-stored json owner checking_send null (some unknown_entry) none keeps_checking no_deposit
      refl refl refl

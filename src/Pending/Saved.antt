-- ===== src/Pending/Saved.antt =====
-- What is saved is loaded: public/public-pending-tx-store.js.
use clairveil_samples.Js.{
  Value, end, field, get, get_field, is_empty, string, text_of, text_or_empty, to_lower_case,
  truthy, undefined,
}
use clairveil_samples.Pending.Entries.{PendingEntry, normalized_pending_entry}
use clairveil_samples.Pending.Reading.{at_name, skip}
use clairveil_samples.Pending.RoundTrip.{normalized_again, text_or_empty-string}
use clairveil_samples.Pending.Store.{
  Json, Owner, assert_pending_identity, entry_value, is_none, load_public_pending_tx_state,
  public_object, public_pending_tx_state_version, read_public_pending, stored_public,
}
use clairveil_samples.Prelude.{
  Bool, Bool-cases, Option, choose, eq_refl, false, if◌then◌else◌, inl, inr, none, ok, refl, some,
  true, ◌&&◌, ◌≡◌,
}

-- The epoch is stored where there is one, and compared as it is lowered.
epoch_text : (v : Value) → truthy v ≡ true → text_or_empty v ≡ text_of v
unfolding text_or_empty
epoch_text v h = rw h refl

no_epoch_text : (v : Value) → truthy v ≡ false → text_or_empty v ≡ ""
unfolding text_or_empty
no_epoch_text v h = rw h (unfold text_of in refl)

epoch_again :
    (v : Value)
    → text_or_empty (if truthy v then string (to_lower_case (text_of v)) else undefined)
      ≡ to_lower_case (text_or_empty v)
epoch_again v = elim (Bool-cases (truthy v)) [
  | inl e ↦ rw (e, epoch_text v e) (text_or_empty-string (to_lower_case (text_of v)))
  | inr e ↦ rw (e, no_epoch_text v e) (unfold text_or_empty text_of truthy to_lower_case in refl)
]

identity_is_kept :
    (o : Owner) (send deposit : Option PendingEntry)
    → assert_pending_identity (public_object o send deposit) public_pending_tx_state_version o
      ≡ ok tt
unfolding assert_pending_identity public_object get get_field
identity_is_kept o send deposit =
    rw (eq_refl (text_or_empty o.profile_id), eq_refl (to_lower_case (text_or_empty o.owner)))
      (rw
        (
          at_name "storageEpoch" (truthy o.storage_epoch)
              (string (to_lower_case (text_of o.storage_epoch)))
              (field "send" (entry_value send) (field "deposit" (entry_value deposit) end)) refl,
          epoch_again o.storage_epoch,
          eq_refl (to_lower_case (text_or_empty o.storage_epoch)),
        )
        refl)

send_again :
    (o : Owner) (send deposit : Option PendingEntry)
    → get "send" (public_object o send deposit) ≡ entry_value send
unfolding public_object get get_field
send_again o send deposit =
    skip "send" "storageEpoch" (truthy o.storage_epoch)
      (string (to_lower_case (text_of o.storage_epoch)))
      (field "send" (entry_value send) (field "deposit" (entry_value deposit) end)) refl

deposit_again :
    (o : Owner) (send deposit : Option PendingEntry)
    → get "deposit" (public_object o send deposit) ≡ entry_value deposit
unfolding public_object get get_field
deposit_again o send deposit =
    skip "deposit" "storageEpoch" (truthy o.storage_epoch)
      (string (to_lower_case (text_of o.storage_epoch)))
      (field "send" (entry_value send) (field "deposit" (entry_value deposit) end)) refl

entry_again :
    (allow_recovery : Bool) (v : Value) (e : Option PendingEntry)
    → normalized_pending_entry allow_recovery v ≡ ok e
    → normalized_pending_entry allow_recovery (entry_value e) ≡ ok e
entry_again allow_recovery v none h = unfold normalized_pending_entry entry_value choose in refl
entry_again allow_recovery v (some e) h = normalized_again allow_recovery v e h

-- Where the text of the stored object is parsed to that object, loading gives the two entries that were
-- saved, for the same owner, as they were normalized.
pub load-stored :
    (json : Json) (o : Owner) (send_value deposit_value : Value)
    (send deposit : Option PendingEntry)
    → normalized_pending_entry false send_value ≡ ok send
    → normalized_pending_entry true deposit_value ≡ ok deposit
    → (is_none send && is_none deposit) ≡ false
    → json.parse (json.stringify (public_object o send deposit)) ≡ ok (public_object o send deposit)
    → is_empty (json.stringify (public_object o send deposit)) ≡ false
    → load_public_pending_tx_state json (stored_public json o send deposit) o
      ≡ ok (some (record { send = send; deposit = deposit }))
unfolding load_public_pending_tx_state stored_public read_public_pending
load-stored json o send_value deposit_value send deposit h k some_entry parsed text =
    rw some_entry (
      rw (text, parsed, identity_is_kept o send deposit)
        (rw
          (
            send_again o send deposit,
            deposit_again o send deposit,
            entry_again false send_value send h,
            entry_again true deposit_value deposit k,
            some_entry,
          )
          refl))

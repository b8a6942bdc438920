-- ===== src/Status/Tests.antt =====
-- Runs of the receipts, and the theorems at concrete inputs.
use clairveil_samples.Js.{
  Value, decimal_before, end, every_char, field, get, get_field, hex_after, is_hash, is_space,
  lower_char, object, size, string, strip_0x, text_of, text_or_empty, to_decimal, to_lower_case,
  trim, trim_end, trim_start, truthy,
}
use clairveil_samples.Prelude.{String, ok, refl, true, ◌≡◌, ◌≢◌}
use clairveil_samples.Status.Cosmos.{
  agreed_hash, cosmos_reservation_transaction_hash, normalized_tx_hash, raw_hash,
}
use clairveil_samples.Status.Identity.{Agrees, reservation_hash-Agrees}
use clairveil_samples.Status.Receipts.{BlockSnapshot, evm_block_chain_snapshot, hex_quantity}

abbrev block_ten : Value
block_ten = object (field "timestamp" (string "0x0A") (field "number" (string "0x1f") end))

abbrev snapshot_ten : BlockSnapshot
snapshot_ten = record { chain_now_ms = 10000; chain_height = "31" }

reads_block : evm_block_chain_snapshot block_ten ≡ ok snapshot_ten
unfolding evm_block_chain_snapshot hex_quantity to_lower_case lower_char strip_0x every_char
    hex_after trim trim_start trim_end is_space text_or_empty text_of truthy get get_field
    to_decimal decimal_before
reads_block = refl

abbrev known_hash : String
known_hash = "00000000000000000000000000000000000000000000000000000000000000ab"

abbrev submitted_reservation : Value
submitted_reservation = object (
    field "submitted_tx_hash"
      (string "0x00000000000000000000000000000000000000000000000000000000000000AB") end)

reads_hash : cosmos_reservation_transaction_hash submitted_reservation ≡ known_hash
unfolding cosmos_reservation_transaction_hash agreed_hash normalized_tx_hash is_hash strip_0x
    to_lower_case lower_char every_char size trim trim_start trim_end is_space text_or_empty text_of
    truthy get get_field
reads_hash = refl

known_is_given : known_hash ≢ ""
known_is_given h = cc

reservation_hash-Agrees_example :
    (is_hash known_hash ≡ true)
    × Agrees
        (raw_hash "submitted_tx_hash" submitted_reservation)
        (normalized_tx_hash (string (raw_hash "submitted_tx_hash" submitted_reservation)))
        (raw_hash "tx_bytes_hash" submitted_reservation)
        (normalized_tx_hash (string (raw_hash "tx_bytes_hash" submitted_reservation)))
        known_hash
reservation_hash-Agrees_example =
    reservation_hash-Agrees submitted_reservation known_hash reads_hash known_is_given

-- ===== src/Status/Receipts.antt =====
-- The kinds of receipt, and the chain time and height of a block.
use Prim.Native.String.{String, [], ◌∷◌}
use Prim.Native.Char.{code}
use clairveil_samples.Js.{
  Value, bigint, every_char, get, hex_after, is_empty, is_hex, max_safe_integer, nat, number,
  safe_nat, string, strip_0x, text_or_empty, to_decimal, to_lower_case, trim, truthy, ◌or◌,
}
use clairveil_samples.Prelude.{
  Bool, Option, Result, arith, false, if◌then◌else◌, ltb, none, not, ok, some, throw, true, ℕ, ◌&&◌,
  ◌*◌, ◌/◌, ◌===◌, ◌==◌, ◌||◌, ◌≡◌,
}
use clairveil_samples.Relay.Snapshot.{has_valid_relay_chain_time, relay_chain_time}

pub data ReceiptStatus : Type 0 where
  receipt_success receipt_failure receipt_unknown : ReceiptStatus

-- /^0+$/ and /^0*1$/
unfoldable pub is_zeros : String → Bool
is_zeros [] = false
is_zeros (c ∷ s) = code c == b'0' && (is_empty s || is_zeros s)

unfoldable pub is_zeros_one : String → Bool
is_zeros_one [] = false
is_zeros_one (c ∷ s) =
    let later = is_zeros_one s in code c == b'1' && is_empty s || code c == b'0' && later

-- evmReceiptStatusKind
unfoldable pub evm_receipt_status_kind : Value → ReceiptStatus
evm_receipt_status_kind (number (nat n)) =
    if n == 1 then receipt_success else if n == 0 then receipt_failure else receipt_unknown
evm_receipt_status_kind (bigint n) =
    if n == 1 then receipt_success else if n == 0 then receipt_failure else receipt_unknown
evm_receipt_status_kind (string status) =
    let normalized = strip_0x (to_lower_case (trim status)) in
    if is_zeros_one normalized
    then receipt_success
    else if is_zeros normalized
    then receipt_failure
    else receipt_unknown
evm_receipt_status_kind _ = receipt_unknown

-- hasSuccessfulEvmReceiptStatus
unfoldable pub has_successful_evm_receipt_status : Value → Bool
has_successful_evm_receipt_status receipt = elim (evm_receipt_status_kind (get "status" receipt)) [
  | receipt_success ↦ true
  | _ ↦ false
]

-- hasFailedEvmReceiptStatus
unfoldable pub has_failed_evm_receipt_status : Value → Bool
has_failed_evm_receipt_status receipt = elim (evm_receipt_status_kind (get "status" receipt)) [
  | receipt_failure ↦ true
  | _ ↦ false
]

unfoldable pub starts_with : String → String → Bool
starts_with [] s = true
starts_with (p ∷ ps) [] = false
starts_with (p ∷ ps) (c ∷ s) = code p == code c && starts_with ps s

unfoldable pub contains : String → String → Bool
contains part [] = is_empty part
contains part (c ∷ s) = let later = contains part s in starts_with part (c ∷ s) || later

-- isEvmReceiptConfirmationPending
unfoldable pub is_evm_receipt_confirmation_pending : Value → Bool
is_evm_receipt_confirmation_pending error =
    let broadcast = get "broadcast" error in
    let text = to_lower_case (text_or_empty (get "message" error)) in
    truthy (get "txHash" error or get "txHash" broadcast)
    && not (truthy (get "receipt" broadcast))
    && (contains "receipt was not found yet" text || contains "broadcast but not found yet" text)

pub record BlockSnapshot : Type 0 where
  pub chain_now_ms : ℕ
  pub chain_height : String

-- /^0x[0-9a-f]+$/i, with the number that it writes.
unfoldable pub hex_quantity : String → Option ℕ
hex_quantity text =
    let lower = to_lower_case text in
    let digits = strip_0x lower in
    if digits === lower || is_empty digits || not (every_char is_hex digits)
    then none
    else some (hex_after 0 digits)

abbrev block_snapshot : Option ℕ → Option ℕ → Result BlockSnapshot
block_snapshot (some timestamp) (some height) =
    if ltb (max_safe_integer / 1000) timestamp
    then throw "Latest EVM block time exceeds the safe integer range"
    else ok (record { chain_now_ms = timestamp * 1000; chain_height = to_decimal height })
block_snapshot _ _ = throw "Latest EVM block time or height is unavailable"

-- evmBlockChainSnapshot
unfoldable pub evm_block_chain_snapshot : Value → Result BlockSnapshot
evm_block_chain_snapshot block =
    block_snapshot (hex_quantity (trim (text_or_empty (get "timestamp" block))))
      (hex_quantity (trim (text_or_empty (get "number" block))))

snapshot_time :
    (timestamp height : Option ℕ) (s : BlockSnapshot)
    → block_snapshot timestamp height ≡ ok s
    → has_valid_relay_chain_time (number (nat s.chain_now_ms)) ≡ true
unfolding has_valid_relay_chain_time relay_chain_time safe_nat
snapshot_time none height s h = cc
snapshot_time (some timestamp) none s h = cc
snapshot_time (some timestamp) (some height) s h = ground (arith, h)

-- The chain time that is read from a block is always one that the relay tests take for valid.
pub evm_block_time_valid :
    (block : Value) (s : BlockSnapshot)
    → evm_block_chain_snapshot block ≡ ok s
    → has_valid_relay_chain_time (number (nat s.chain_now_ms)) ≡ true
unfolding evm_block_chain_snapshot
evm_block_time_valid block s h =
    snapshot_time (hex_quantity (trim (text_or_empty (get "timestamp" block))))
      (hex_quantity (trim (text_or_empty (get "number" block)))) s h

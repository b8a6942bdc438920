-- ===== src/Status/Flow.antt =====
-- public/cosmos-flow-state.js: chain time, the expiry of transfers, recovered deposits, and whose
-- reservations use the account sequence of the browser.
use Prim.Native.String.{String, [], ◌∷◌, char_at, ◌++◌ as str_message}
use Prim.Native.Char.{Char, code}
use clairveil_samples.Js.{
  Number, Value, bigint, decimal_after, elements, end, field, get, has_own, is_canonical_decimal,
  is_empty, is_false, is_hash, is_object, is_text, is_true, minus_bigint, nat, neg, number, object,
  safe_nat, string, strip_0x, text_of, text_or_empty, to_decimal, to_lower_case, to_number, trim,
  truthy, ◌or_nullish◌, ◌or◌,
}
use clairveil_samples.Prelude.{
  >>=-eq-ok, Bool, List, Option, Result, ap, arith, false, find, if◌then◌else◌, leb, ltb, none, not,
  ok, ok_injective, require, requiring, some, subst, throw, true, ℕ, ◌&&◌, ◌-◌, ◌/◌, ◌<◌, ◌===◌,
  ◌==◌, ◌>>=◌, ◌>>◌, ◌||◌, ◌∙◌, ◌≡◌,
}
use clairveil_samples.Recovery.Unordered.{notes}

-- A number of seconds: a number, a bigint, or canonical decimal digits. `none` is for anything else.
unfoldable pub unix_number : Value → Option Number
unix_number (number n) = some n
unix_number (bigint n) = some (nat n)
unix_number (minus_bigint n) = some (neg n)
unix_number (string s) = if is_canonical_decimal s then some (nat (decimal_after 0 s)) else none
unix_number _ = none

abbrev unix_or_throw : Option ℕ → String → String → Bool → Result ℕ
unix_or_throw none label kind positive = throw (str_message label kind)
unix_or_throw (some n) label kind positive =
    require (not (positive && n == 0)) (str_message label kind) >> ok n

abbrev kind_text : Bool → String
kind_text positive =
    if positive then " must be a positive safe integer" else " must be a non-negative safe integer"

-- canonicalUnixSeconds
unfoldable pub canonical_unix_seconds : Value → String → Bool → Result ℕ
canonical_unix_seconds v label positive = elim (unix_number v) [
  | none ↦ throw (str_message label " must be a canonical safe integer")
  | some n ↦ unix_or_throw (safe_nat n) label (kind_text positive) positive
]

abbrev upper_char : Char → Char
upper_char c =
    if leb b'a' (code c) && leb (code c) b'z'
    then char_at "ABCDEFGHIJKLMNOPQRSTUVWXYZ" (code c - b'a')
    else c

unfoldable pub to_upper_case : String → String
to_upper_case [] = []
to_upper_case (c ∷ s) = upper_char c ∷ to_upper_case s

-- canonicalTxHash
unfoldable pub canonical_tx_hash : Value → String
unfolding to_upper_case
canonical_tx_hash v =
    let hash = strip_0x (trim (text_or_empty v)) in
    if is_hash (to_lower_case hash) then to_upper_case hash else ""

-- Where the chain is.
pub record ChainBlock : Type 0 where
  pub time_unix : ℕ
  pub height : ℕ

abbrev observed_network : Value → String
observed_network reply = trim (text_or_empty (get "network" (get "node_info" (get "result" reply))))

abbrev or_missing : String → String
or_missing s = if is_empty s then "<missing>" else s

abbrev block_at : Option ℕ → Number → Result ChainBlock
block_at none height = throw "Latest status response omitted a valid block timestamp"
block_at (some milliseconds) height = elim (safe_nat height) [
  | none ↦ throw "Latest status response omitted a valid block height"
  | some n ↦
      require (ltb 0 n) "Latest status response omitted a valid block height"
      >> ok (record { time_unix = milliseconds / 1000; height = n })
]

-- authoritativeChainBlockFromStatus; `parse_date` is Date.parse of times since 1970, in milliseconds.
unfoldable pub authoritative_chain_block_from_status :
    (String → Option ℕ) → Value → Value → Result ChainBlock
authoritative_chain_block_from_status parse_date reply chain_id =
    let expected = trim (text_or_empty chain_id) in
    let sync_info = get "sync_info" (get "result" reply) in
    require (not (is_empty expected) && observed_network reply === expected) (
      str_message "Latest status network " (
        str_message (or_missing (observed_network reply))
          (str_message " does not match active profile chain ID " (or_missing expected))))
    >> (require (is_false (get "catching_up" sync_info))
          "Latest status is not from a fully synced Cosmos node"
        >> block_at (parse_date (text_or_empty (get "latest_block_time" sync_info)))
            (to_number (get "latest_block_height" sync_info)))

-- typedPrivacyScanAfter
unfoldable pub typed_privacy_scan_after : Value → Value
typed_privacy_scan_after cursor =
    let candidate =
      get "next_cursor" cursor
      or_nullish get "nextCursor" cursor
      or_nullish get "after" cursor
      or_nullish get "afterCursor" cursor in
    if is_object candidate
    then candidate
    else object (
        field "height" (number (nat 0))
          (field "globalSequence" (number (nat 0)) (field "outputIndex" (number (nat 0)) end)))

-- preparedTransferExpiryUnix
unfoldable pub prepared_transfer_expiry_unix : Value → Result ℕ
prepared_transfer_expiry_unix reply =
    let prepared = get "payload" (get "prepared" reply) in
    require (is_object prepared) "Prepared transfer payload is missing"
    >> (require (has_own "expires_at_unix" prepared)
          "Prepared transfer payload expires_at_unix is missing"
        >> canonical_unix_seconds (get "expires_at_unix" prepared)
            "Prepared transfer payload expires_at_unix" true)

-- assertPreparedTransferFreshAtChainTime
unfoldable pub assert_prepared_transfer_fresh_at_chain_time : Value → Value → Result ℕ
assert_prepared_transfer_fresh_at_chain_time reply chain_now_unix =
    prepared_transfer_expiry_unix reply >>= λ expiry.
    canonical_unix_seconds chain_now_unix "Authoritative chain time" false >>= λ now.
    require (not (leb expiry now)) (
      str_message "Prepared transfer expired at " (
        str_message (to_decimal expiry)
          (str_message "; authoritative chain time is " (to_decimal now))))
    >> ok expiry

abbrev note_hash : Value → String
note_hash note = canonical_tx_hash (get "tx_hash" note or get "txHash" note)

abbrev notes_of : Value → List Value
notes_of v = elim (elements v) [ none ↦ List.[] | some notes ↦ notes ]

-- recoveredDepositNoteForTxHash
unfoldable pub recovered_deposit_note_for_tx_hash : Value → Value → Result (Option Value)
recovered_deposit_note_for_tx_hash notes tx_hash =
    let expected = canonical_tx_hash tx_hash in
    require (not (is_empty expected)) "Deposit recovery requires an exact 32-byte transaction hash"
    >> ok (find (λ note. note_hash note === expected) (notes_of notes))

-- depositRecoveryCanFinalizeFromTypedScan
unfoldable pub deposit_recovery_can_finalize_from_typed_scan : Value → Value → Value → Bool
deposit_recovery_can_finalize_from_typed_scan transport has_prepared_deposit exact_event_confirmed =
    let normalized = to_lower_case (text_of transport) in
    if normalized === "evm"
    then is_true exact_event_confirmed
    else if not (truthy has_prepared_deposit)
    then true
    else normalized === "evm" || normalized === "cosmos" && is_true exact_event_confirmed

-- normalizedAccount
unfoldable pub normalized_account : Value → String
normalized_account v = to_lower_case (trim (text_or_empty v))

-- isSeparateSameOriginLocalRelayerReservation
unfoldable pub is_separate_same_origin_local_relayer_reservation : Value → Value → Value → Bool
is_separate_same_origin_local_relayer_reservation v browser_account local_relayer =
    let metadata = get "metadata" v or object end in
    let configured_name = trim (text_or_empty (get "name" local_relayer)) in
    let configured_address = normalized_account (get "transparentAddress" local_relayer) in
    let persisted_name = trim (text_or_empty (get "local_relayer" metadata)) in
    let persisted_address = normalized_account (get "local_relayer_address" metadata) in
    let wallet_address = normalized_account browser_account in
    is_text "relay_withdraw" (get "kind" v)
    && not (is_true (get "relay_handed_off" metadata))
    && text_or_empty (get "broadcast_attempt_reason" metadata)
      === "same_origin_local_relayer_submit"
    && not (is_empty configured_name)
    && not (is_empty configured_address)
    && not (is_empty persisted_name)
    && not (is_empty persisted_address)
    && not (is_empty wallet_address)
    && persisted_name === configured_name
    && persisted_address === configured_address
    && not (persisted_address === wallet_address)

-- reservationConsumesBrowserCosmosSequence
unfoldable pub reservation_consumes_browser_cosmos_sequence : Value → Value → Value → Bool
reservation_consumes_browser_cosmos_sequence v browser_account local_relayer =
    not (is_separate_same_origin_local_relayer_reservation v browser_account local_relayer)

-- A transfer passes only before its expiry: both are read, the expiry is positive, and the chain time
-- lies before it.
pub fresh_before_expiry :
    (reply chain_now_unix : Value) (expiry : ℕ)
    → assert_prepared_transfer_fresh_at_chain_time reply chain_now_unix ≡ ok expiry
    → (now : ℕ) × (prepared_transfer_expiry_unix reply ≡ ok expiry)
      × (canonical_unix_seconds chain_now_unix "Authoritative chain time" false ≡ ok now)
      × (now < expiry)
unfolding assert_prepared_transfer_fresh_at_chain_time
fresh_before_expiry reply chain_now_unix expiry h =
    let (e, read, h₁) = >>=-eq-ok (prepared_transfer_expiry_unix reply) _ h in
    let (now, time, h₂) =
      >>=-eq-ok (canonical_unix_seconds chain_now_unix "Authoritative chain time" false) _ h₁ in
    let (before, h₃) = requiring (not (leb e now)) _ _ h₂ in
    let same = ok_injective h₃ in
    (now, read ∙ ap ok same, time, subst (λ k. now < k) same (ground (arith, before)))

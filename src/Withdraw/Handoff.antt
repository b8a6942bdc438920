-- ===== src/Withdraw/Handoff.antt =====
-- public/relay-withdraw-reconciliation.js: the hand-off, the expiry of its payload, and the reserved
-- payload hash.
use clairveil_samples.Batch.Prepared.{known}
use clairveil_samples.Js.{
  Value, elements, end, field, get, get_field, is_empty, is_object_like, is_text, max_safe_integer,
  message, null, object, safe_nat, string, text_of, text_or_empty, to_number, trim, truthy,
  ◌or_nullish◌,
}
use clairveil_samples.Prelude.{
  Bool, List, Option, Result, String, [], if◌then◌else◌, leb, ltb, none, not, ok, ok_injective,
  refl, require, requiring, some, some_of, subst, throw, true, ℕ, ◌&&◌, ◌*◌, ◌===◌, ◌>>=◌, ◌>>◌,
  ◌||◌, ◌∷◌, ◌≡◌,
}
use clairveil_samples.Withdraw.Wire.{payload}

abbrev pub relay_withdraw_handoff_version : String
relay_withdraw_handoff_version = "v2"

abbrev handoff_object : Value → Value → Value → Value → Value
handoff_object profile_id transport prepared transaction = object (
    field "schema_version" (string relay_withdraw_handoff_version) (
      field "handoff_version" (string relay_withdraw_handoff_version) (
        field "profile_id" (string (text_or_empty profile_id)) (
          field "transport" transport (
            field "request"
              (object (
                field "version" (string relay_withdraw_handoff_version)
                  (field "payload" prepared end)))
              (if truthy transaction then field "transaction" transaction end else end))))))

-- createRelayWithdrawHandoff; `stringify` is JSON.stringify.
unfoldable pub create_relay_withdraw_handoff :
    (Value → String) → Value → Value → Value → Value → Result Value
create_relay_withdraw_handoff stringify profile_id transport prepared transaction =
    require (is_object_like prepared) "relay withdraw payload is required"
    >> (require (is_text relay_withdraw_handoff_version (get "version" prepared))
          "relay withdraw payload must use v2"
        >> (require (is_text "cosmos" transport || is_text "evm" transport)
              (message ("unsupported relay transaction transport " ∷ stringify transport ∷ []))
            >> ok (handoff_object profile_id transport prepared transaction)))

abbrev has_versions : Value → Bool
has_versions handoff =
    is_text relay_withdraw_handoff_version (get "schema_version" handoff)
    && is_text relay_withdraw_handoff_version (get "handoff_version" handoff)
    && is_text relay_withdraw_handoff_version (get "version" (get "request" handoff))
    && is_text relay_withdraw_handoff_version
        (get "version" (get "payload" (get "request" handoff)))

-- relayWithdrawHandoffPayload
unfoldable pub relay_withdraw_handoff_payload : Value → Result Value
relay_withdraw_handoff_payload handoff =
    if not (truthy handoff)
    then ok null
    else require (has_versions handoff)
        "relay withdraw handoff must use the v2 schema, handoff, request, and payload versions"
      >> ok (get "payload" (get "request" handoff))

read_back :
    (profile_id transport prepared transaction : Value)
    → is_text relay_withdraw_handoff_version (get "version" prepared) ≡ true
    → relay_withdraw_handoff_payload (handoff_object profile_id transport prepared transaction)
      ≡ ok prepared
unfolding relay_withdraw_handoff_payload truthy
read_back profile_id transport prepared transaction h = unfold get get_field in rw h refl

-- Whatever hand-off is created, its payload is read back as it was given.
pub handoff_payload-create :
    (stringify : Value → String) (profile_id transport prepared transaction handoff : Value)
    → create_relay_withdraw_handoff stringify profile_id transport prepared transaction ≡ ok handoff
    → relay_withdraw_handoff_payload handoff ≡ ok prepared
unfolding create_relay_withdraw_handoff
handoff_payload-create stringify profile_id transport prepared transaction handoff h =
    let (given, h₁) = requiring (is_object_like prepared) _ _ h in
    let (version, h₂) = requiring _ _ _ h₁ in
    let (known, h₃) = requiring (is_text "cosmos" transport || is_text "evm" transport) _ _ h₂ in
    subst (λ v. relay_withdraw_handoff_payload v ≡ ok prepared) (ok_injective h₃)
      (read_back profile_id transport prepared transaction version)

abbrev unix_expiry : Value → Option ℕ
unix_expiry payload = safe_nat (to_number (get "expires_at_unix" payload))

-- relayWithdrawPayloadExpired
unfoldable pub relay_withdraw_payload_expired : Value → Value → Result Bool
relay_withdraw_payload_expired payload chain_now_unix = elim (unix_expiry payload) [
  | none ↦ throw "relay payload expires_at_unix is invalid"
  | some expiry ↦ elim (safe_nat (to_number chain_now_unix)) [
    | none ↦ throw "authoritative chain time is invalid"
    | some now ↦ ok (leb expiry now)
  ]
]

-- The last millisecond of ECMAScript's time values, past which toISOString throws.
abbrev pub max_time : ℕ
max_time = 8640000000000000

-- relayWithdrawExpiryLeaseUntil; `to_iso_string` is that of the date of a time in milliseconds.
unfoldable pub relay_withdraw_expiry_lease_until : (ℕ → String) → Value → Result String
relay_withdraw_expiry_lease_until to_iso_string payload = elim (unix_expiry payload) [
  | none ↦ throw "relay payload expires_at_unix is invalid"
  | some expiry ↦
      if ltb 0 expiry
      then (require (leb (expiry * 1000) max_safe_integer && leb (expiry * 1000) max_time)
            "relay payload expiry is outside the supported timestamp range"
          >> ok (to_iso_string (expiry * 1000)))
      else throw "relay payload expires_at_unix is invalid"
]

abbrev payload_hash_of : Value → String
payload_hash_of v = trim (text_or_empty (get "payload_hash" v))

abbrev without_hash : String → List Value → Bool
without_hash hash records = some_of (λ r. not (payload_hash_of r === hash)) records

-- requiredText
unfoldable pub required_text : Value → String → Result String
required_text value label =
    let text = trim (text_of (value or_nullish string "")) in
    if is_empty text then throw (message (label ∷ " is required" ∷ [])) else ok text

-- assertRelayReservationPayloadMatches
unfoldable pub assert_relay_reservation_payload_matches : Value → Value → Result (Unit {0})
assert_relay_reservation_payload_matches records payload =
    required_text (get "payload_hash" payload) "relay payload hash" >>= λ hash.
    elim (elements records) [
      | none ↦ throw "relay reservation records are required"
      | some [] ↦ throw "relay reservation records are required"
      | some (r ∷ rs) ↦
          require (not (without_hash hash (r ∷ rs)))
            "relay recovery state does not match the reserved payload hash"
    ]

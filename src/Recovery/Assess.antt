-- ===== src/Recovery/Assess.antt =====
-- public/reservation-recovery.js: assessReservationRecovery.
use clairveil_samples.Js.{Value, get, is_empty, message, sort, text_or_empty, truthy}
use clairveil_samples.Prelude.{
  Bool, List, Option, String, [], false, has, if◌then◌else◌, keep, length, map, not, some_of, true,
  unique, ℕ, ◌&&◌, ◌===◌, ◌==◌, ◌||◌, ◌∷◌,
}
use clairveil_samples.Recovery.Records.{
  broadcast_attempted_of, given, has_sign_doc_identity, has_transaction_identity, kind_of,
  lease_is_live, named, relay_handed_off_of, reservation_operation_key, status_of,
}

abbrev pub preparation_statuses : List String
preparation_statuses = "Reserved" ∷ "Proving" ∷ "ProofReady" ∷ "ManualReview" ∷ []

abbrev pub transaction_statuses : List String
transaction_statuses = "Submitted" ∷ "Unknown" ∷ []

-- `xs.length === 1 ? xs[0] : other`
abbrev pub only_or : String → List String → String
only_or other (s ∷ []) = s
only_or other _ = other

abbrev last_text : List String → String
last_text [] = ""
last_text (s ∷ []) = s
last_text (s ∷ t ∷ ts) = last_text (t ∷ ts)

-- What the decision looks at.
pub record Signs : Type 0 where
  pub empty : Bool
  pub one_status : Bool
  pub handed_off : Bool
  pub attempted : Bool
  pub in_transaction : Bool
  pub in_preparation : Bool
  pub proving : Bool
  pub live : Bool
  pub foreign : Bool
  pub malformed : Bool
  pub sign_doc_only : Bool

pub data Action : Type 0 where
  review_replan unavailable relay_reconcile reconcile wait_for_lease : Action

-- The action, and the reason that is given for it.
unfoldable pub decide : String → Signs → Action × String
decide status s =
    if s.empty
    then (unavailable, "No reservation records are available.")
    else if not s.one_status
    then (unavailable, "Linked reservations have mixed states and require manual evidence review.")
    else if s.handed_off
    then (
      relay_reconcile,
      "A relay handoff can only be recovered through its expiry and transaction reconciliation flow.",
    )
    else if s.attempted || s.in_transaction
    then (
      reconcile,
      "A transaction may have reached the network. Reconcile its tx hash and nullifiers before retrying.",
    )
    else if not s.in_preparation
    then (
      unavailable,
      message (
          "Reservation status "
          ∷ (if is_empty status then "unknown" else status)
          ∷ " is not eligible for preparation recovery."
          ∷ []),
    )
    else if s.proving && s.live
    then (
      wait_for_lease,
      "Proof generation is still active. Use the current transfer flow to cancel it, or wait for its lease to expire.",
    )
    else if s.foreign
    then (wait_for_lease, "Another browser tab or worker still owns the live reservation lease.")
    else if s.malformed
    then (unavailable, "The linked reservations do not share one recoverable live lease.")
    else if s.sign_doc_only
    then (
      review_replan,
      "Only a sign-doc hash was saved. Quarantine the request, acknowledge wallet-history risk, and recheck every nullifier before replanning.",
    )
    else (
      review_replan, "Verify current nullifier evidence before discarding this local preparation.",
    )

pub record Assessment : Type 0 where
  pub operation_key : String
  pub reservation_ids : List String
  pub status : String
  pub kind : String
  pub action : Action
  pub reason : String
  pub broadcast_attempted : Bool
  pub sign_doc_only : Bool
  pub has_queryable_transaction_identity : Bool
  pub relay_handed_off : Bool
  pub lease_live : Bool
  pub lease_owned_by_current_worker : Bool
  pub lease_token : String
  pub lease_until : String

abbrev first_key : List Value → String
first_key [] = ""
first_key (v ∷ vs) = reservation_operation_key v

abbrev pub is_empty_list : List Value → Bool
is_empty_list [] = true
is_empty_list (v ∷ vs) = false

-- The records whose leases are live, and the tests on them.
abbrev pub live_records : (String → Option ℕ) → ℕ → List Value → List Value
live_records parse_date now records = keep (lease_is_live parse_date now) records

abbrev pub is_foreign : String → Value → Bool
is_foreign lease_owner v = not (text_or_empty (get "lease_owner" v) === lease_owner)

abbrev pub is_malformed : List Value → Bool
is_malformed live =
    not (is_empty_list live)
    && (not (length (named "lease_owner" live) == 1)
        || not (length (named "lease_token" live) == 1))

unfoldable pub signs : (String → Option ℕ) → String → ℕ → List Value → Signs
signs parse_date lease_owner now records =
    let statuses = unique (map status_of records) in
    let live = live_records parse_date now records in
    record {
      empty = is_empty_list records;
      one_status = length statuses == 1;
      handed_off = some_of relay_handed_off_of records;
      attempted = some_of broadcast_attempted_of records;
      in_transaction = has (only_or "Mixed" statuses) transaction_statuses;
      in_preparation = has (only_or "Mixed" statuses) preparation_statuses;
      proving = only_or "Mixed" statuses === "Proving";
      live = not (is_empty_list live);
      foreign = some_of (is_foreign lease_owner) live;
      malformed = is_malformed live;
      sign_doc_only =
          some_of has_sign_doc_identity records && not (some_of has_transaction_identity records);
    }

-- assessReservationRecovery, of records that were given; the lease owner is String(leaseOwner || "").
unfoldable pub assess_reservation_recovery :
    (String → Option ℕ) → String → ℕ → List Value → Assessment
assess_reservation_recovery parse_date lease_owner now records =
    let reservations = keep truthy records in
    let s = signs parse_date lease_owner now reservations in
    let status = only_or "Mixed" (unique (map status_of reservations)) in
    let live = live_records parse_date now reservations in
    let (action, reason) = decide status s in
    record {
      operation_key = first_key reservations;
      reservation_ids = given (map (λ v. text_or_empty (get "reservation_id" v)) reservations);
      status = status;
      kind = only_or "mixed" (unique (map kind_of reservations));
      action = action;
      reason = reason;
      broadcast_attempted = s.attempted;
      sign_doc_only = s.sign_doc_only;
      has_queryable_transaction_identity = some_of has_transaction_identity reservations;
      relay_handed_off = s.handed_off;
      lease_live = s.live;
      lease_owned_by_current_worker = s.live && not s.foreign && not s.malformed;
      lease_token = only_or "" (named "lease_token" live);
      lease_until =
          last_text (sort (given (map (λ v. text_or_empty (get "lease_until" v)) reservations)));
    }

-- ===== src/Recovery/Reset.antt =====
-- public/reservation-recovery.js: the reset of reservations that a restarted local chain left behind, and
-- the summary of failed preparations.
use clairveil_samples.Js.{
  Value, elements, every_char, get, is_empty, is_false, is_text, is_true, string, text_of,
  ◌or_nullish◌,
}
use clairveil_samples.Prelude.{
  Bool, List, String, [], every, false, has, none, not, some, true, ℕ, ◌&&◌, ◌==◌, ◌∷◌,
}
use clairveil_samples.Recovery.Assess.{Action, Assessment, review_replan}
use clairveil_samples.Recovery.Records.{reservation_metadata}
use clairveil_samples.Recovery.Unordered.{notes}

abbrev is_zero_char : ℕ → Bool
is_zero_char c = c == b'0'

-- isZeroReserveAmount
unfoldable pub is_zero_reserve_amount : Value → Bool
is_zero_reserve_amount v =
    let text = text_of (v or_nullish string "") in
    not (is_empty text) && every_char is_zero_char text

-- isEmptyLocalGenesisPrivacyState
unfoldable pub is_empty_local_genesis_privacy_state : Value → Value → Bool
is_empty_local_genesis_privacy_state local_test_mode reserve =
    is_true local_test_mode
    && is_true (get "invariant_holds" reserve)
    && every is_zero_reserve_amount (
        get "module_balance" reserve
        ∷ get "expected_module_balance" reserve
        ∷ get "total_deposited" reserve
        ∷ get "total_withdrawn" reserve
        ∷ [])

abbrev is_review_replan : Action → Bool
is_review_replan review_replan = true
is_review_replan _ = false

abbrev replans_all : List Assessment → Bool
replans_all [] = false
replans_all (a ∷ rest) = every (λ x. is_review_replan x.action) (a ∷ rest)

abbrev is_empty_array : Value → Bool
is_empty_array v = elim (elements v) [ none ↦ false | some [] ↦ true | some (x ∷ xs) ↦ false ]

-- canResetStaleLocalGenesisReservations, of an array of assessments
unfoldable pub can_reset_stale_local_genesis_reservations :
    Value → Value → Value → Value → Value → List Assessment → Bool
can_reset_stale_local_genesis_reservations local_test_mode reserve notes note_sync_status
      scan_has_more assessments =
    is_empty_local_genesis_privacy_state local_test_mode reserve
    && is_empty_array notes
    && is_text "synced" note_sync_status
    && is_false scan_has_more
    && replans_all assessments

abbrev failure_reasons : List String
failure_reasons =
    "preparation_outcome_unknown_after_proving" ∷ "user_cancelled_preparation_before_broadcast" ∷ []

abbrev reason_of : Value → String
reason_of (string s) = s
reason_of _ = ""

unfoldable pub preparation_failed : Value → Bool
preparation_failed v =
    is_text "ManualReview" (get "status" v)
    && has (reason_of (get "reconcile_reason" (reservation_metadata v))) failure_reasons

-- ===== src/Server/Outcomes.antt =====
-- What the relay server learns of a transaction. `mark` is the marker of an unknown outcome, which may
-- throw.
use clairveil_samples.Js.{
  Value, decimal_after, get, has_own, is_canonical_decimal, is_empty, is_nullish, max_safe_integer,
  message, number, safe_nat, string, text_or_empty, to_decimal, trim, truthy, ◌or◌,
}
use clairveil_samples.Prelude.{
  Bool, Bool-cases, Option, Option-cases, Result, String, [], arith, false, if◌then◌else◌, inl, inr,
  leb, ltb, none, not, ok, some, throw, true, ℕ, ◌&&◌, ◌==◌, ◌>>◌, ◌↔◌, ◌∷◌, ◌≡◌, ◌⊎◌,
}
use clairveil_samples.Status.Receipts.{
  has_failed_evm_receipt_status, has_successful_evm_receipt_status,
}

-- confirmedCosmosTxCode
unfoldable pub confirmed_cosmos_tx_code : Value → Option ℕ
confirmed_cosmos_tx_code tx = elim (get "code" tx) [
  | number n ↦ safe_nat n
  | string s ↦
      if is_canonical_decimal s && leb (decimal_after 0 s) max_safe_integer
      then some (decimal_after 0 s)
      else none
  | _ ↦ none
]

pub record TrackedOutcome : Type 0 where
  pub included : Bool
  pub pending : Bool
  pub unknown_outcome : Bool
  pub execution_failed : Option Bool

abbrev pub not_found : TrackedOutcome
not_found = record {
  included = false;
  pending = true;
  unknown_outcome = true;
  execution_failed = none;
}

abbrev pub unreadable : TrackedOutcome
unreadable = record {
  included = true;
  pending = false;
  unknown_outcome = true;
  execution_failed = none;
}

abbrev pub known_outcome : Bool → TrackedOutcome
known_outcome failed_there = record {
  included = true;
  pending = false;
  unknown_outcome = false;
  execution_failed = some failed_there;
}

-- trackedCosmosSubmissionOutcome
unfoldable pub tracked_cosmos_submission_outcome :
    Value → Value → Option (Value → Result (Unit {0})) → Result TrackedOutcome
tracked_cosmos_submission_outcome tx evidence none =
    throw "submission unknown-outcome marker is required"
tracked_cosmos_submission_outcome tx evidence (some mark) =
    if not (truthy tx) then mark evidence >> ok not_found else (elim (confirmed_cosmos_tx_code tx) [
      | none ↦ mark evidence >> ok unreadable
      | some n ↦ ok (known_outcome (ltb 0 n))
    ])

-- trackedEvmSubmissionOutcome
unfoldable pub tracked_evm_submission_outcome :
    Value → Value → Option (Value → Result (Unit {0})) → Result TrackedOutcome
tracked_evm_submission_outcome receipt evidence none =
    throw "submission unknown-outcome marker is required"
tracked_evm_submission_outcome receipt evidence (some mark) =
    let failed_there = has_failed_evm_receipt_status receipt in
    if not (truthy receipt)
    then mark evidence >> ok not_found
    else if not failed_there && not (has_successful_evm_receipt_status receipt)
    then mark evidence >> ok unreadable
    else ok (known_outcome failed_there)

-- waitForTrackedSubmissionOutcome; `wait` is what the query comes to.
unfoldable pub wait_for_tracked_submission_outcome :
    Option (Result Value) → Option (Value → Result (Unit {0})) → Value → Result Value
wait_for_tracked_submission_outcome none mark evidence =
    throw "submission outcome query callback is required"
wait_for_tracked_submission_outcome (some wait) none evidence =
    throw "submission unknown-outcome marker is required"
wait_for_tracked_submission_outcome (some wait) (some mark) evidence =
    if is_nullish evidence
    then throw "submission transaction evidence is required"
    else (elim wait [
      | throw problem ↦ mark evidence >> throw problem
      | ok outcome ↦ if truthy outcome then ok outcome else mark evidence >> ok outcome
    ])

abbrev raw_log : Value → String
raw_log tx = trim (text_or_empty (get "raw_log" tx or get "rawLog" tx))

abbrev check_tx_message : Value → ℕ → String
check_tx_message tx n =
    if is_empty (raw_log tx)
    then message ("Cosmos CheckTx failed with code " ∷ to_decimal n ∷ [])
    else raw_log tx

-- assertCosmosCheckTxAccepted; `mark` is what calling the marker of a rejection gives.
unfoldable pub assert_cosmos_check_tx_accepted : Value → Result (Unit {0}) → Result (Option ℕ)
assert_cosmos_check_tx_accepted tx mark = elim (confirmed_cosmos_tx_code tx) [
  | none ↦ if has_own "code" tx then throw "Cosmos CheckTx returned an invalid code" else ok none
  | some n ↦ if n == 0 then ok (some 0) else mark >> throw (check_tx_message tx n)
]

never_ok :
    (mark : Result (Unit {0})) (problem : String) (c : Option ℕ)
    → ¬ ((mark >> throw problem) ≡ ok c)
never_ok (throw e) problem c h = cc
never_ok (ok u) problem c h = cc

-- CheckTx is taken as accepted only with the code 0, or where the answer has no code at all; an answer
-- with another code, or with one that cannot be read, never is.
pub check_tx_accepted :
    (tx : Value) (mark : Result (Unit {0})) (result : Option ℕ)
    → assert_cosmos_check_tx_accepted tx mark ≡ ok result
    → ((result ≡ some 0) × (confirmed_cosmos_tx_code tx ≡ some 0))
      ⊎ ((result ≡ none) × (has_own "code" tx ≡ false))
unfolding assert_cosmos_check_tx_accepted
check_tx_accepted tx mark result h = elim (Option-cases (confirmed_cosmos_tx_code tx)) [
  | inl unread ↦ elim (Bool-cases (has_own "code" tx)) [
    | inl present ↦ absurd (ground (arith, unread, present, h))
    | inr absent ↦ inr (ground (arith, unread, absent, h), absent)
  ]
  | inr (n, read) ↦ elim (Bool-cases (n == 0)) [
    | inl accepted ↦ inl (ground (arith, read, accepted, h), ground (arith, read, accepted))
    | inr refused ↦ absurd (
        never_ok mark (check_tx_message tx n) result
          (rw (assert_cosmos_check_tx_accepted, read, refused) at h))
  ]
]

-- A marker that refuses: what is tracked without it is known.
abbrev pub refuse : Value → Result (Unit {0})
refuse evidence = throw "the outcome is unknown"

-- A Cosmos transaction is tracked without marking its outcome unknown exactly when it is found and its
-- code can be read; it then failed exactly if the code is not 0.
pub tracked_cosmos_known_iff :
    (tx evidence : Value) (o : TrackedOutcome)
    → (tracked_cosmos_submission_outcome tx evidence (some refuse) ≡ ok o) ↔ (
        (n : ℕ) × (truthy tx ≡ true)
        × (confirmed_cosmos_tx_code tx ≡ some n)
        × (o ≡ known_outcome (ltb 0 n)))
unfolding tracked_cosmos_submission_outcome
tracked_cosmos_known_iff tx evidence o = elim (Option-cases (confirmed_cosmos_tx_code tx)) [
  | inl unread ↦ (
    λ h. absurd (ground (arith, unread, h)),
    λ (n, there, read, e). absurd (ground (arith, unread, read)),
  )
  | inr (n, read) ↦ (
    λ h. (n, ground (arith, read, h), read, ground (arith, read, h)),
    λ (m, there, read', e). ground (arith, there, read', e),
  )
]

-- ===== src/Server/Serializer.antt =====
-- createRelayAccountSubmissionSerializer: the turns of a signer account and the fence of an unknown outcome.
-- A turn is begun, runs its callback, and is left; the promise chain `tail` orders the turns of an account,
-- which are here taken one after another. Causes are the messages of errors.
use clairveil_samples.Js.{
  Value, get, insert, is_empty, is_nullish, is_true, is_undefined, lookup, null, remove,
  text_or_empty, trim,
}
use clairveil_samples.Prelude.{
  Bool, List, Option, Result, String, choose, false, if◌then◌else◌, none, not, ok, require, some,
  throw, true, ℕ, ◌&&◌, ◌+◌, ◌-◌, ◌==◌, ◌>>=◌, ◌>>◌, ◌||◌,
}

pub record Account : Type 0 where
  pub pending : ℕ
  pub outcome_unknown : Bool
  pub unknown_cause : Option String
  pub unknown_evidence : Value

abbrev pub fresh_account : Account
fresh_account = record {
  pending = 0;
  outcome_unknown = false;
  unknown_cause = none;
  unknown_evidence = null;
}

-- normalizedAccountKey
unfoldable pub normalized_account_key : Value → Result String
normalized_account_key account_key =
    let key = trim (text_or_empty account_key) in
    require (not (is_empty key)) "relay submission account key is required" >> ok key

-- What `reconcileUnknown` comes to.
pub data Answer : Type 0 where
  answers : Value → Answer
  rejects : String → Answer

abbrev pub resolves_outcome : Value → Bool
resolves_outcome result = is_true result || is_true (get "resolved" result)

-- What the answer does to the entry, and whether it is resolved.
abbrev pub after_answer : Account → Answer → Account × Bool
after_answer a (answers result) =
    if resolves_outcome result
    then (record a { outcome_unknown = false; unknown_cause = none; unknown_evidence = null }, true)
    else (a, false)
after_answer a (rejects cause) = (record a { unknown_cause = some cause }, false)

-- reconcileUnknownEntry
unfoldable pub reconcile_unknown_entry : Account → Option (Value → Answer) → Account × Bool
reconcile_unknown_entry a none = (a, false)
reconcile_unknown_entry a (some reconcile) =
    choose a.outcome_unknown (after_answer a (reconcile a.unknown_evidence)) (a, false)

-- What `run` does at once: the entry of the account, with one more turn pending.
unfoldable pub queue_turn :
    Value → Bool → List (String × Account) → List (String × Account) × Result String
queue_turn account_key callback accounts = elim (normalized_account_key account_key) [
  | throw problem ↦ (accounts, throw problem)
  | ok key ↦
      if not callback
      then (accounts, throw "local signer account submission callback is required")
      else (
        insert key
            (elim (lookup key accounts) [
              | none ↦ record fresh_account { pending = 1 }
              | some a ↦ record a { pending = a.pending + 1 }
            ])
            accounts,
        ok key,
      )
]

abbrev unknown_outcome_error : String
unknown_outcome_error =
    "local signer account has an unresolved submission outcome; reconcile it before another submission"

abbrev pub fenced : Account × Bool → Account × Result (Unit {0})
fenced (a, resolved) = (a, if a.outcome_unknown then throw unknown_outcome_error else ok tt)

-- The beginning of a turn: it is refused while the outcome of an earlier one is unknown.
unfoldable pub begin_turn : Account → Option (Value → Answer) → Account × Result (Unit {0})
begin_turn a reconcile =
    choose a.outcome_unknown (fenced (reconcile_unknown_entry a reconcile)) (a, ok tt)

-- What the callback of a turn marks.
pub record Turn : Type 0 where
  pub submission_started : Bool
  pub submission_rejected : Bool
  pub submission_outcome_unknown : Bool
  pub submission_evidence : Value
  pub unknown_evidence : Value

abbrev pub new_turn : Turn
new_turn = record {
  submission_started = false;
  submission_rejected = false;
  submission_outcome_unknown = false;
  submission_evidence = null;
  unknown_evidence = null;
}

unfoldable pub mark_turn_started : Turn → Turn
mark_turn_started t = record t { submission_started = true }

unfoldable pub mark_turn_rejected : Turn → Turn × Result (Unit {0})
mark_turn_rejected t =
    if t.submission_started
    then (record t { submission_rejected = true }, ok tt)
    else (t, throw "local signer account submission cannot be rejected before it starts")

abbrev pub in_flight : Turn → Bool
in_flight t = t.submission_started && not t.submission_rejected

unfoldable pub record_turn_evidence : Value → Turn → Turn × Result (Unit {0})
record_turn_evidence evidence t =
    if not (in_flight t)
    then (t, throw "local signer account submission evidence cannot be recorded in this state")
    else if is_nullish evidence
    then (t, throw "local signer account submission evidence is required")
    else (record t { submission_evidence = evidence }, ok tt)

abbrev pub is_null : Value → Bool
is_null null = true
is_null _ = false

-- `markSubmissionOutcomeUnknown(evidence = null)`
unfoldable pub mark_turn_unknown : Value → Turn → Turn × Result (Unit {0})
mark_turn_unknown evidence t =
    let given = if is_undefined evidence then null else evidence in
    let marked = record t { submission_outcome_unknown = true } in
    if not (in_flight t)
    then (t, throw "local signer account submission outcome cannot be unknown in this state")
    else if is_null given
    then (record marked { unknown_evidence = marked.submission_evidence }, ok tt)
    else (record marked { submission_evidence = given; unknown_evidence = given }, ok tt)

-- The callback of the turn gave a value.
unfoldable pub turn_returned : Turn → Account → Account
turn_returned t a =
    if t.submission_outcome_unknown
    then record a { outcome_unknown = true; unknown_evidence = t.unknown_evidence }
    else a

-- The callback of the turn threw.
unfoldable pub turn_threw : String → Turn → Account → Account
turn_threw cause t a =
    if in_flight t
    then record a {
      outcome_unknown = true;
      unknown_cause = some cause;
      unknown_evidence =
          if not (is_null t.unknown_evidence)
          then t.unknown_evidence
          else if not (is_null t.submission_evidence)
          then t.submission_evidence
          else a.unknown_evidence;
    }
    else a

-- The turn is left by the account `a`: forgotten with the last turn, unless its outcome is unknown.
unfoldable pub leave_turn : String → Account → List (String × Account) → List (String × Account)
leave_turn key a accounts =
    let left = record a { pending = a.pending - 1 } in
    choose (left.pending == 0 && not left.outcome_unknown) (remove key accounts)
      (insert key left accounts)

abbrev pub is_unknown : Option Account → Bool
is_unknown none = false
is_unknown (some a) = a.outcome_unknown

-- hasUnknownOutcome
unfoldable pub has_unknown_outcome : Value → List (String × Account) → Result Bool
has_unknown_outcome account_key accounts =
    normalized_account_key account_key >>= λ key. ok (is_unknown (lookup key accounts))

abbrev pub reconciled_account :
    String
    → Option (Value → Answer)
    → Option Account
    → List (String × Account)
    → List (String × Account) × Result Bool
reconciled_account key reconcile none accounts = (accounts, ok false)
reconciled_account key reconcile (some a) accounts =
    if not a.outcome_unknown
    then (accounts, ok false)
    else if not (a.pending == 0)
    then (accounts, throw "local signer account reconciliation must wait for queued submissions")
    else let after = reconcile_unknown_entry a reconcile in
      (if after.1 then remove key accounts else insert key (after.0) accounts, ok (after.1))

-- reconcileUnknownOutcome
unfoldable pub reconcile_unknown_outcome :
    Value
    → Option (Value → Answer)
    → List (String × Account)
    → List (String × Account) × Result Bool
reconcile_unknown_outcome account_key reconcile accounts =
    elim (normalized_account_key account_key) [
      | throw problem ↦ (accounts, throw problem)
      | ok key ↦ reconciled_account key reconcile (lookup key accounts) accounts
    ]

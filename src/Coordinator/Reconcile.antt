-- ===== src/Coordinator/Reconcile.antt =====
-- Reconciling an attempt with the chain: started by its locks or by its idempotency key, ended by the
-- answer of the callback.
use clairveil_samples.Coordinator.Run.{occupied, same_keys}
use clairveil_samples.Coordinator.State.{
  Coordinator, Entry, change, delete_entry, normalize_key, normalized_lock_set,
}
use clairveil_samples.Js.{Value, get, has_own, is_empty, is_false, is_true, null}
use clairveil_samples.Prelude.{
  Bool, List, Option, Result, String, [], choose, false, if◌then◌else◌, keep, length, none, not, ok,
  some, throw, true, ℕ, ◌&&◌, ◌===◌, ◌==◌, ◌||◌, ◌∷◌,
}

pub record ReconciliationStatus : Type 0 where
  pub found : Bool
  pub settled : Bool
  pub resolved : Bool
  pub released : Bool
  pub evidence : Value
  pub result : Value

abbrev pub no_entry_status : ReconciliationStatus
no_entry_status = record {
  found = false;
  settled = false;
  resolved = false;
  released = false;
  evidence = null;
  result = null;
}

abbrev pub reconciliation_status : Entry → Bool → Bool → ReconciliationStatus
reconciliation_status e resolved released = record {
  found = true;
  settled = e.settled;
  resolved = resolved;
  released = released;
  evidence = e.submission_evidence;
  result = e.result;
}

pub data Reconciliation : Type 0 where
  -- A status is returned at once.
  answered : ReconciliationStatus → Reconciliation
  -- The reconciliation that runs already.
  shared : ℕ → Reconciliation
  -- The callback is called with the entry's locks, key, evidence and result.
  asked : ℕ → Reconciliation

abbrev pub begin_reconciliation : Entry → Entry
begin_reconciliation e = record e { reconciling = true }

-- `reconcileEntry` up to the call; `callback` says that `reconcile` is a function.
unfoldable pub reconcile_entry : Option ℕ → Bool → Coordinator → Coordinator × Result Reconciliation
reconcile_entry none callback c = (c, ok (answered no_entry_status))
reconcile_entry (some id) callback c =
    let e = c.store id in
    choose (not e.settled) (c, ok (answered (reconciliation_status e false false)))
      (choose e.reconciling (c, ok (shared id))
        (choose (not callback) (c, throw "relay submission reconciliation callback is required")
          (change id begin_reconciliation c, ok (asked id))))

abbrev pub with_result : Value → Entry → Entry
with_result outcome e =
    choose (has_own "result" outcome) (record e { result = get "result" outcome }) e

abbrev pub reconciled_failure : Value → Entry → Entry
reconciled_failure outcome e = record (with_result outcome e) { included_execution_failed = true }

abbrev pub reconciled_success : Value → Entry → Entry
reconciled_success outcome e =
    let e' = with_result outcome e in
    record e' {
      included_execution_succeeded = true;
      replaced_promise = if has_own "result" outcome then some (e'.result) else e'.replaced_promise;
    }

abbrev pub end_reconciliation : Entry → Entry
end_reconciliation e = record e { reconciling = false }

-- The callback resolved to `outcome`; the `finally` that follows is done too.
unfoldable pub reconciliation_resolved :
    ℕ → Value → Coordinator → Coordinator × ReconciliationStatus
reconciliation_resolved id outcome c =
    let e = c.store id in
    choose
      (not (is_true (get "included" outcome))
        || not (is_true (get "failed" outcome)) && not (is_false (get "failed" outcome)))
      (change id end_reconciliation c, reconciliation_status e false false)
      (choose (is_true (get "failed" outcome))
        (
          change id end_reconciliation (delete_entry id (change id (reconciled_failure outcome) c)),
          reconciliation_status (reconciled_failure outcome e) true true,
        )
        (
          change id end_reconciliation (change id (reconciled_success outcome) c),
          reconciliation_status (reconciled_success outcome e) true false,
        ))

-- The callback threw.
unfoldable pub reconciliation_threw : ℕ → Coordinator → Coordinator
reconciliation_threw id c = change id end_reconciliation c

-- The one entry that holds exactly these keys.
abbrev pub exact_entry : List String → Coordinator → List ℕ → Option ℕ
exact_entry keys c (id ∷ []) = if same_keys (c.store id).lock_keys keys then some id else none
exact_entry keys c _ = none

unfoldable pub reconcile_many : Value → Bool → Coordinator → Coordinator × Result Reconciliation
reconcile_many lock_keys callback c =
    let keys = normalized_lock_set lock_keys in
    choose (length keys == 0)
      (c, throw "relay submission lock keys are required for reconciliation")
      (reconcile_entry (exact_entry keys c (occupied keys c.attempts)) callback c)

abbrev pub only : List ℕ → Result (Option ℕ)
only [] = ok none
only (id ∷ []) = ok (some id)
only (id ∷ j ∷ ids) = throw "relay submission idempotency key matches multiple attempts"

unfoldable pub reconcile_matching :
    Result (Option ℕ) → Bool → Coordinator → Coordinator × Result Reconciliation
reconcile_matching (throw e) callback c = (c, throw e)
reconcile_matching (ok entry) callback c = reconcile_entry entry callback c

unfoldable pub reconcile_by_idempotency_key :
    Value → Bool → Coordinator → Coordinator × Result Reconciliation
reconcile_by_idempotency_key idempotency_key callback c =
    let key = normalize_key idempotency_key in
    choose (is_empty key)
      (c, throw "relay submission idempotency key is required for reconciliation")
      (reconcile_matching (only (keep (λ id. (c.store id).idempotency_key === key) c.entries))
        callback c)

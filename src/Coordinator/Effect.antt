-- ===== src/Coordinator/Effect.antt =====
-- What a call other than a request for a submission does: it changes one entry, or changes and then
-- releases it.
use clairveil_samples.Coordinator.Marks.{
  mark_included_execution_failed, mark_submission_rejected, mark_submission_started, may_retry,
  record_submission_evidence, submission_resolved, submission_settled, submission_threw,
  with_evidence, with_failed, with_rejected, with_settled, with_started, with_submission_result,
}
use clairveil_samples.Coordinator.Reconcile.{
  begin_reconciliation, end_reconciliation, reconcile_by_idempotency_key, reconcile_entry,
  reconcile_many, reconcile_matching, reconciled_failure, reconciled_success,
  reconciliation_resolved, reconciliation_threw, with_result,
}
use clairveil_samples.Coordinator.State.{Coordinator, Entry, change, delete_entry, update}
use clairveil_samples.Coordinator.Step.{
  Event, marks_failed, marks_rejected, marks_started, reconcile_threw, reconciled, reconciles_key,
  reconciles_many, records_evidence, resolves, runs, settles, step, throws,
}
use clairveil_samples.Js.{Value}
use clairveil_samples.Prelude.{
  Bool, Option, Result, ap, arith, choose, choose_cases, choose_keeps, false, none, not, ok, refl,
  some, subst, sym, throw, true, ℕ, ◌||◌, ◌≡◌,
}
use mathlib.Core.Path.{fun_ext}

-- An attempt whose locks may be given up: it crossed no boundary, was explicitly rejected, or the chain
-- included its transaction, failed or successful.
abbrev pub is_releasable : Entry → Bool
is_releasable e =
    not e.submission_started
    || e.submission_rejected
    || e.included_execution_failed
    || e.included_execution_succeeded

-- What is done to `c`, where `o` is the attempt that may be released.
pub data Effect (o : Option ℕ) (c d : Coordinator) : Type 0 where
  unchanged : d ≡ c → Effect o c d
  changes :
      (id : ℕ) (f : Entry → Entry)
      → (f (c.store id)).lock_keys ≡ (c.store id).lock_keys
      → d ≡ change id f c
      → Effect o c d
  changes_twice :
      (id : ℕ) (f g : Entry → Entry)
      → (f (c.store id)).lock_keys ≡ (c.store id).lock_keys
      → (g (f (c.store id))).lock_keys ≡ (f (c.store id)).lock_keys
      → d ≡ change id g (change id f c)
      → Effect o c d
  releases :
      (id : ℕ) (f g : Entry → Entry)
      → (f (c.store id)).lock_keys ≡ (c.store id).lock_keys
      → (g (f (c.store id))).lock_keys ≡ (f (c.store id)).lock_keys
      → is_releasable (g (f (c.store id))) ≡ true
      → o ≡ some id
      → d ≡ change id g (delete_entry id (change id f c))
      → Effect o c d

branches {ℓ} :
    {R : Type ℓ} {o : Option ℕ} {c : Coordinator} (b : Bool) (x y : Coordinator × R)
    → Effect o c (x.0)
    → Effect o c (y.0)
    → Effect o c ((choose b x y).0)
unfolding choose
branches true x y p q = p
branches false x y p q = q

reconcile_entry-Effect :
    {o : Option ℕ} (entry : Option ℕ) (callback : Bool) (c : Coordinator)
    → Effect o c (reconcile_entry entry callback c).0
unfolding reconcile_entry
reconcile_entry-Effect none callback c = unchanged refl
reconcile_entry-Effect (some id) callback c = branches _ _ _ (unchanged refl) (
    branches _ _ _ (unchanged refl)
      (branches _ _ _ (unchanged refl) (changes id begin_reconciliation refl refl)))

reconcile_matching-Effect :
    {o : Option ℕ} (m : Result (Option ℕ)) (callback : Bool) (c : Coordinator)
    → Effect o c (reconcile_matching m callback c).0
unfolding reconcile_matching
reconcile_matching-Effect (throw e) callback c = unchanged refl
reconcile_matching-Effect (ok entry) callback c = reconcile_entry-Effect entry callback c

with_result-lock_keys :
    (outcome : Value) (e : Entry) → (with_result outcome e).lock_keys ≡ e.lock_keys
with_result-lock_keys outcome e =
    choose_keeps (λ (x : Entry). x.lock_keys ≡ e.lock_keys) _ _ _ refl refl

failed_is_releasable : (e : Entry) → e.included_execution_failed ≡ true → is_releasable e ≡ true
failed_is_releasable e h = ground arith

update_same : (store : ℕ → Entry) (id j : ℕ) → update store id (store id) j ≡ store j
update_same store id j = ground arith

change_same : (id : ℕ) (c : Coordinator) → change id (λ e. e) c ≡ c
change_same id c = λ i. record c { store = fun_ext (update_same c.store id) i }

reconciliation_resolved-Effect :
    (id : ℕ) (outcome : Value) (c : Coordinator)
    → Effect (some id) c (reconciliation_resolved id outcome c).0
unfolding reconciliation_resolved
reconciliation_resolved-Effect id outcome c =
    branches _ _ _ (changes id end_reconciliation refl refl) (
      branches _ _ _
        (releases id (reconciled_failure outcome) end_reconciliation
          (with_result-lock_keys outcome (c.store id)) refl
          (failed_is_releasable (end_reconciliation (reconciled_failure outcome (c.store id))) refl)
          refl refl)
        (changes_twice id (reconciled_success outcome) end_reconciliation
          (with_result-lock_keys outcome (c.store id)) refl refl))

retry_releasable : (e : Entry) → may_retry e ≡ true → is_releasable e ≡ true
retry_releasable e h = ground arith

release :
    {c : Coordinator} (id : ℕ) (f : Entry → Entry)
    → (f (c.store id)).lock_keys ≡ (c.store id).lock_keys
    → is_releasable (f (c.store id)) ≡ true
    → Effect (some id) c (delete_entry id (change id f c))
release id f same may = releases id f (λ e. e) same refl may refl (sym (change_same id _))

submission_resolved-Effect :
    (id : ℕ) (result : Value) (c : Coordinator)
    → Effect (some id) c (submission_resolved id result c)
unfolding submission_resolved
submission_resolved-Effect id result c =
    choose_cases (Effect (some id) c) _ _ _
      (λ was_failed.
        release id (with_submission_result result) refl
          (failed_is_releasable (with_submission_result result (c.store id)) was_failed))
      (λ fine. changes id (with_submission_result result) refl refl)

submission_threw-Effect : (id : ℕ) (c : Coordinator) → Effect (some id) c (submission_threw id c)
unfolding submission_threw
submission_threw-Effect id c =
    choose_cases (Effect (some id) c) _ _ _
      (λ retry.
        subst (Effect (some id) c) (ap (delete_entry id) (change_same id c))
          (release id (λ e. e) refl (retry_releasable (c.store id) retry)))
      (λ stays. unchanged refl)

-- The requests are left out: `admit` makes entries.
abbrev pub IsRequest : Event → Type 0
IsRequest (runs lock_keys key callback) = Unit
IsRequest _ = ⊥

-- The attempt that an event ends, or whose outcome it tells.
abbrev pub subject : Event → Option ℕ
subject (resolves id result) = some id
subject (throws id) = some id
subject (reconciled id outcome) = some id
subject _ = none

-- Every event but a request for a submission changes one entry, or releases its subject when that attempt crossed
-- no boundary, was rejected, or was included in the chain.
pub step-Effect : (e : Event) (c : Coordinator) → ¬ IsRequest e → Effect (subject e) c (step e c)
unfolding step mark_submission_started mark_submission_rejected mark_included_execution_failed
    record_submission_evidence submission_settled reconciliation_threw reconcile_many
    reconcile_by_idempotency_key
step-Effect (runs lock_keys key callback) c h = absurd (h tt)
step-Effect (marks_started id) c h = changes id with_started refl refl
step-Effect (marks_rejected id) c h =
    branches _ _ _ (changes id with_rejected refl refl) (unchanged refl)
step-Effect (marks_failed id) c h =
    branches _ _ _ (changes id with_failed refl refl) (unchanged refl)
step-Effect (records_evidence id evidence) c h =
    branches _ _ _ (unchanged refl)
      (branches _ _ _ (unchanged refl) (changes id (with_evidence evidence) refl refl))
step-Effect (resolves id result) c h = submission_resolved-Effect id result c
step-Effect (throws id) c h = submission_threw-Effect id c
step-Effect (settles id) c h = changes id with_settled refl refl
step-Effect (reconciles_many lock_keys callback) c h =
    branches _ _ _ (unchanged refl) (reconcile_entry-Effect _ callback c)
step-Effect (reconciles_key key callback) c h =
    branches _ _ _ (unchanged refl) (reconcile_matching-Effect _ callback c)
step-Effect (reconciled id outcome) c h = reconciliation_resolved-Effect id outcome c
step-Effect (reconcile_threw id) c h = changes id end_reconciliation refl refl

-- An event is a request for a submission or none.
pub request_cases {ℓ} :
    (P : Event → Type ℓ)
    → ((lock_keys key : Value) (callback : Bool) → P (runs lock_keys key callback))
    → ((e : Event) → ¬ IsRequest e → P e)
    → (e : Event) → P e
request_cases P request other (runs lock_keys key callback) = request lock_keys key callback
request_cases P request other (marks_started id) = other (marks_started id) (λ h. h)
request_cases P request other (marks_rejected id) = other (marks_rejected id) (λ h. h)
request_cases P request other (marks_failed id) = other (marks_failed id) (λ h. h)
request_cases P request other (records_evidence id evidence) =
    other (records_evidence id evidence) (λ h. h)
request_cases P request other (resolves id result) = other (resolves id result) (λ h. h)
request_cases P request other (throws id) = other (throws id) (λ h. h)
request_cases P request other (settles id) = other (settles id) (λ h. h)
request_cases P request other (reconciles_many lock_keys callback) =
    other (reconciles_many lock_keys callback) (λ h. h)
request_cases P request other (reconciles_key key callback) =
    other (reconciles_key key callback) (λ h. h)
request_cases P request other (reconciled id outcome) = other (reconciled id outcome) (λ h. h)
request_cases P request other (reconcile_threw id) = other (reconcile_threw id) (λ h. h)

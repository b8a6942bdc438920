-- ===== src/Coordinator/Step.antt =====
-- The calls of the coordinator and of its callbacks as events, in any order.
use clairveil_samples.Coordinator.Marks.{
  mark_included_execution_failed, mark_submission_rejected, mark_submission_started,
  record_submission_evidence, submission_resolved, submission_settled, submission_threw,
}
use clairveil_samples.Coordinator.Reconcile.{
  reconcile_by_idempotency_key, reconcile_many, reconciliation_resolved, reconciliation_threw,
}
use clairveil_samples.Coordinator.Run.{run_many}
use clairveil_samples.Coordinator.State.{Coordinator}
use clairveil_samples.Js.{Value}
use clairveil_samples.Prelude.{Bool, List, [], ℕ, ◌∷◌}

pub data Event : Type 0 where
  runs : Value → Value → Bool → Event
  marks_started marks_rejected marks_failed : ℕ → Event
  records_evidence : ℕ → Value → Event
  resolves : ℕ → Value → Event
  throws settles : ℕ → Event
  reconciles_many reconciles_key : Value → Bool → Event
  reconciled : ℕ → Value → Event
  reconcile_threw : ℕ → Event

unfoldable pub step : Event → Coordinator → Coordinator
step (runs lock_keys key callback) c = (run_many lock_keys key callback c).0
step (marks_started id) c = (mark_submission_started id c).0
step (marks_rejected id) c = (mark_submission_rejected id c).0
step (marks_failed id) c = (mark_included_execution_failed id c).0
step (records_evidence id evidence) c = (record_submission_evidence id evidence c).0
step (resolves id result) c = submission_resolved id result c
step (throws id) c = submission_threw id c
step (settles id) c = submission_settled id c
step (reconciles_many lock_keys callback) c = (reconcile_many lock_keys callback c).0
step (reconciles_key key callback) c = (reconcile_by_idempotency_key key callback c).0
step (reconciled id outcome) c = (reconciliation_resolved id outcome c).0
step (reconcile_threw id) c = reconciliation_threw id c

unfoldable pub steps : List Event → Coordinator → Coordinator
unfolding step
steps [] c = c
steps (e ∷ es) c = steps es (step e c)

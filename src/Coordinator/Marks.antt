-- ===== src/Coordinator/Marks.antt =====
-- What the callback of a submission says while it runs, and how the submission ends.
use clairveil_samples.Coordinator.State.{Coordinator, Entry, change, delete_entry}
use clairveil_samples.Js.{Value, get, is_false, is_nullish, is_true}
use clairveil_samples.Prelude.{Bool, Result, choose, not, ok, throw, true, ℕ, ◌&&◌, ◌||◌}

abbrev pub with_started : Entry → Entry
with_started e = record e { submission_started = true }

abbrev pub with_rejected : Entry → Entry
with_rejected e = record e { submission_rejected = true }

abbrev pub with_failed : Entry → Entry
with_failed e = record e { included_execution_failed = true }

abbrev pub with_settled : Entry → Entry
with_settled e = record e { settled = true }

abbrev pub with_evidence : Value → Entry → Entry
with_evidence evidence e = record e { submission_evidence = evidence }

unfoldable pub mark_submission_started : ℕ → Coordinator → Coordinator × Result (Unit {0})
mark_submission_started id c = (change id with_started c, ok tt)

unfoldable pub mark_submission_rejected : ℕ → Coordinator → Coordinator × Result (Unit {0})
mark_submission_rejected id c =
    choose (c.store id).submission_started (change id with_rejected c, ok tt)
      (c, throw "relay submission cannot be rejected before it starts")

unfoldable pub mark_included_execution_failed : ℕ → Coordinator → Coordinator × Result (Unit {0})
mark_included_execution_failed id c =
    choose (c.store id).submission_started (change id with_failed c, ok tt)
      (c, throw "relay execution cannot fail before submission starts")

unfoldable pub record_submission_evidence :
    ℕ → Value → Coordinator → Coordinator × Result (Unit {0})
record_submission_evidence id evidence c =
    choose (not (c.store id).submission_started || (c.store id).submission_rejected)
      (c, throw "relay submission evidence cannot be recorded in this state")
      (choose (is_nullish evidence) (c, throw "relay submission evidence is required")
        (change id (with_evidence evidence) c, ok tt))

abbrev pub with_submission_result : Value → Entry → Entry
with_submission_result result e = record e {
  result = result;
  included_execution_succeeded = is_true (get "included" result) && is_false (get "failed" result);
}

-- The callback resolved to `result`.
unfoldable pub submission_resolved : ℕ → Value → Coordinator → Coordinator
submission_resolved id result c =
    let noted = change id (with_submission_result result) c in
    choose (c.store id).included_execution_failed (delete_entry id noted) noted

-- A callback that threw may be tried again: it crossed no boundary, or was explicitly rejected, or the
-- chain included its transaction and the execution failed.
abbrev pub may_retry : Entry → Bool
may_retry e = not e.submission_started || e.submission_rejected || e.included_execution_failed

-- The callback threw.
unfoldable pub submission_threw : ℕ → Coordinator → Coordinator
submission_threw id c = choose (may_retry (c.store id)) (delete_entry id c) c

-- The `finally` of the submission.
unfoldable pub submission_settled : ℕ → Coordinator → Coordinator
submission_settled id c = change id with_settled c

-- ===== src/Coordinator/Tests.antt =====
-- Runs of the coordinator, and the theorems at concrete inputs.
use clairveil_samples.Coordinator.Effect.{is_releasable}
use clairveil_samples.Coordinator.Marks.{mark_submission_started, submission_threw}
use clairveil_samples.Coordinator.Refine.{Moves, owners, steps-Moves}
use clairveil_samples.Coordinator.Repeat.{run_many_again, run_many_takes}
use clairveil_samples.Coordinator.Retention.{
  ambiguous_keeps_locks, attempts_exclusive, entries_bounded, locks_iff, reached,
}
use clairveil_samples.Coordinator.Run.{
  admit, attempt, holders, joined, run_many, start_entry, started,
}
use clairveil_samples.Coordinator.State.{
  create_relay_submission_coordinator, has_id, is_evictable, new_entry, normalize_key,
  normalized_lock_set, trim_completed,
}
use clairveil_samples.Coordinator.Step.{Event, marks_started, runs, step, steps, throws}
use clairveil_samples.Js.{
  Value, array, cons, elements, insert, insert_sorted, is_space, items, lookup, lower_char, nil,
  sort, string, text_of, text_or_empty, to_lower_case, trim, trim_end, trim_start, truthy,
}
use clairveil_samples.Prelude.{
  List, [], choose, false, has, length, none, ok, refl, some, true, ℕ, ◌↔◌, ◌∷◌, ◌≡◌, ◌≤◌,
}

abbrev lock_keys : Value
lock_keys = array (cons (string " N1 ") (cons (string "n2") nil))

abbrev first_request : Event
first_request = runs lock_keys (string "P") true

-- A request whose callback crosses the submission boundary.
abbrev submitted_events : List Event
submitted_events = first_request ∷ marks_started 0 ∷ []

submitted_is_live : has_id 0 (reached 4 submitted_events).entries ≡ true
unfolding steps step create_relay_submission_coordinator new_entry run_many attempt admit
    start_entry trim_completed is_evictable holders normalized_lock_set normalize_key sort
    insert_sorted mark_submission_started elements items truthy text_or_empty text_of trim
    trim_start trim_end is_space to_lower_case lower_char lookup insert choose
submitted_is_live = refl

submitted_locks : has "n1" ((reached 4 submitted_events).store 0).lock_keys ≡ true
unfolding steps step create_relay_submission_coordinator new_entry run_many attempt admit
    start_entry trim_completed is_evictable holders normalized_lock_set normalize_key sort
    insert_sorted mark_submission_started elements items truthy text_or_empty text_of trim
    trim_start trim_end is_space to_lower_case lower_char lookup insert choose
submitted_locks = refl

-- The callback throws after the boundary: the outcome is ambiguous.
throw_is_ambiguous : is_releasable ((step (throws 0) (reached 4 submitted_events)).store 0) ≡ false
unfolding steps step submission_threw create_relay_submission_coordinator new_entry run_many attempt
    admit start_entry trim_completed is_evictable holders normalized_lock_set normalize_key sort
    insert_sorted mark_submission_started elements items truthy text_or_empty text_of trim
    trim_start trim_end is_space to_lower_case lower_char lookup insert choose
throw_is_ambiguous = refl

first_is_started :
    (run_many lock_keys (string "P") true (create_relay_submission_coordinator 4)).1
    ≡ ok (started 0)
unfolding create_relay_submission_coordinator new_entry run_many attempt admit start_entry
    trim_completed is_evictable holders normalized_lock_set normalize_key sort insert_sorted
    elements items truthy text_or_empty text_of trim trim_start trim_end is_space to_lower_case
    lower_char lookup insert
first_is_started = refl

locks_iff_example : (lookup "n1" (reached 4 submitted_events).attempts ≡ some 0) ↔ (
    (has_id 0 (reached 4 submitted_events).entries ≡ true)
    × (has "n1" ((reached 4 submitted_events).store 0).lock_keys ≡ true))
locks_iff_example = locks_iff 4 submitted_events "n1" 0

attempts_exclusive_example : ◌≡◌ {A = ℕ} 0 0
attempts_exclusive_example =
    attempts_exclusive 4 submitted_events "n1" 0 0 submitted_is_live submitted_is_live
      submitted_locks submitted_locks

ambiguous_keeps_locks_example :
    lookup "n1" (step (throws 0) (reached 4 submitted_events)).attempts ≡ some 0
ambiguous_keeps_locks_example =
    ambiguous_keeps_locks 4 submitted_events (throws 0) 0 "n1" submitted_is_live submitted_locks
      throw_is_ambiguous

entries_bounded_example : length (reached 4 submitted_events).entries ≤ 4
entries_bounded_example = entries_bounded 4 submitted_events

n1_is_locked : has "n1" (normalized_lock_set lock_keys) ≡ true
unfolding normalized_lock_set normalize_key sort insert_sorted elements items truthy text_or_empty
    text_of trim trim_start trim_end is_space to_lower_case lower_char
n1_is_locked = refl

run_many_takes_example :
    (lookup "n1" (create_relay_submission_coordinator 4).attempts ≡ none)
    × (lookup "n1"
          (run_many lock_keys (string "P") true (create_relay_submission_coordinator 4)).0.attempts
        ≡ some 0)
run_many_takes_example =
    run_many_takes lock_keys (string "P") true (create_relay_submission_coordinator 4) 0 "n1"
      first_is_started n1_is_locked

run_many_again_example :
    run_many lock_keys
      (string "P")
      true
      (run_many lock_keys (string "P") true (create_relay_submission_coordinator 4)).0
    ≡ (
      (run_many lock_keys (string "P") true (create_relay_submission_coordinator 4)).0,
      ok (joined 0),
    )
run_many_again_example =
    run_many_again lock_keys (string "P") true (create_relay_submission_coordinator 4) 0
      first_is_started

steps-Moves_example :
    (owners (create_relay_submission_coordinator 4) ≡ (λ k. none))
    × Moves
        (throws 0)
        (steps submitted_events (create_relay_submission_coordinator 4))
        (step (throws 0) (steps submitted_events (create_relay_submission_coordinator 4)))
steps-Moves_example = steps-Moves 4 submitted_events (throws 0)

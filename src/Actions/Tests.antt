-- ===== src/Actions/Tests.antt =====
-- Runs of the gate, and the theorem at a concrete input.
use clairveil_samples.Actions.Gate.{
  ActionEvent, cancel, cancels_action, create_value_moving_action_gate, gate_step, gate_steps,
  invalidate, invalidates, new_action, run_action, settle,
}
use clairveil_samples.Actions.Turns.{stale_settle_keeps}
use clairveil_samples.Js.{string, text_of, text_or_empty, truthy}
use clairveil_samples.Prelude.{List, [], ok, refl, true, ◌∷◌, ◌≡◌}

abbrev since : List ActionEvent
since = cancels_action (string "send") ∷ invalidates ∷ []

first_starts :
    (run_action (string "send") true create_value_moving_action_gate).1 ≡ ok (new_action 1)
unfolding run_action create_value_moving_action_gate
first_starts = refl

later_starts :
    (run_action
      (string "deposit")
      true
      (gate_steps since (run_action (string "send") true create_value_moving_action_gate).0)).1
    ≡ ok (new_action 3)
unfolding run_action create_value_moving_action_gate gate_steps gate_step cancel invalidate
    text_or_empty text_of truthy
later_starts = refl

stale_settle_keeps_example :
    settle 1
      (run_action
        (string "deposit")
        true
        (gate_steps since (run_action (string "send") true create_value_moving_action_gate).0)).0
    ≡ (run_action
        (string "deposit")
        true
        (gate_steps since (run_action (string "send") true create_value_moving_action_gate).0)).0
stale_settle_keeps_example =
    stale_settle_keeps create_value_moving_action_gate since (string "send") (string "deposit") 1 3
      first_starts later_starts

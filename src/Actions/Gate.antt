-- ===== src/Actions/Gate.antt =====
-- The state of the gate and its calls. A token is known by its generation; its promise is settled by the
-- event `settle`, when the task has given a value or thrown.
use clairveil_samples.Js.{Value, string, text_of, text_or_empty, ◌or◌}
use clairveil_samples.Prelude.{
  Bool, List, Option, Result, String, [], false, if◌then◌else◌, none, not, ok, some, throw, true, ℕ,
  ◌+◌, ◌===◌, ◌==◌, ◌||◌, ◌∷◌,
}

pub record Token : Type 0 where
  pub action : String
  pub generation : ℕ
  pub aborted : Bool

pub record ActionGate : Type 0 where
  pub active : Option Token
  pub generation : ℕ

-- createValueMovingActionGate
unfoldable pub create_value_moving_action_gate : ActionGate
create_value_moving_action_gate = record { active = none; generation = 0 }

pub data ActionOutcome : Type 0 where
  -- The promise of the action that runs.
  same_action : ℕ → ActionOutcome
  new_action : ℕ → ActionOutcome

abbrev action_name : Value → String
action_name action = text_of (action or string "value-moving action")

abbrev pub run_free : Value → Bool → ActionGate → ActionGate × Result ActionOutcome
run_free action task g =
    if not task then (g, throw "value-moving action callback is required") else (
      record {
        active = some (record {
          action = action_name action;
          generation = g.generation + 1;
          aborted = false;
        });
        generation = g.generation + 1;
      },
      ok (new_action (g.generation + 1)),
    )

abbrev pub run_with : Value → Bool → ActionGate → Option Token → ActionGate × Result ActionOutcome
run_with action task g (some token) = (g, ok (same_action token.generation))
run_with action task g none = run_free action task g

-- `run(action, task)`; `task` says that it is a function.
unfoldable pub run_action : Value → Bool → ActionGate → ActionGate × Result ActionOutcome
run_action action task g = run_with action task g g.active

-- `if (active === token) active = null`
unfoldable pub settle : ℕ → ActionGate → ActionGate
settle id g = elim g.active [
  | none ↦ g
  | some token ↦ if token.generation == id then record g { active = none } else g
]

-- `cancel(action)`
unfoldable pub cancel : Value → ActionGate → ActionGate × Bool
cancel action g = elim g.active [
  | none ↦ (g, false)
  | some token ↦
      if not (token.action === text_or_empty action) || token.aborted
      then (g, false)
      else (record g { active = some (record token { aborted = true }) }, true)
]

-- `invalidate()`; the controller of the token that is dropped is aborted with it.
unfoldable pub invalidate : ActionGate → ActionGate
invalidate g = record { active = none; generation = g.generation + 1 }

pub data ActionEvent : Type 0 where
  runs_action : Value → Bool → ActionEvent
  settles_action : ℕ → ActionEvent
  cancels_action : Value → ActionEvent
  invalidates : ActionEvent

unfoldable pub gate_step : ActionEvent → ActionGate → ActionGate
gate_step (runs_action action task) g = (run_action action task g).0
gate_step (settles_action id) g = settle id g
gate_step (cancels_action action) g = (cancel action g).0
gate_step invalidates g = invalidate g

unfoldable pub gate_steps : List ActionEvent → ActionGate → ActionGate
gate_steps [] g = g
gate_steps (e ∷ es) g = gate_steps es (gate_step e g)

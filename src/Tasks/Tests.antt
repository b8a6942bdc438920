-- ===== src/Tasks/Tests.antt =====
-- Runs of the tasks of a browser, and the theorems at concrete inputs.
use clairveil_samples.Js.{
  is_space, string, text_of, text_or_empty, trim, trim_end, trim_start, truthy,
}
use clairveil_samples.Prelude.{List, [], arith, choose, refl, true, ℕ, ◌∷◌, ◌≡◌}
use clairveil_samples.Tasks.Drain.{Drains, tasks_drain}
use clairveil_samples.Tasks.Queue.{
  TaskEvent, create_browser_task_coordinator, grant, grants, is_taken, proceed, proceeds, run_task,
  running, runs_task, task_step, task_steps, waiting,
}
use clairveil_samples.Tasks.Serial.{queue_after, running_alone}

-- Two tasks under one lock; the second is called for while the first runs, and the queue is reset.
abbrev overlapping : List TaskEvent
overlapping =
    runs_task (string " clairveil ") true
    ∷ runs_task (string "clairveil") true
    ∷ runs_task (string " ") true
    ∷ proceeds 0
    ∷ grants 0
    ∷ proceeds 1
    ∷ []

two_are_pending : (queue_after true overlapping).pending ≡ 2
unfolding task_steps task_step run_task proceed grant create_browser_task_coordinator choose trim
    trim_start trim_end is_space text_or_empty text_of truthy is_taken
two_are_pending = refl

first_runs : ((queue_after true overlapping).tasks 0).phase ≡ running
unfolding task_steps task_step run_task proceed grant create_browser_task_coordinator choose trim
    trim_start trim_end is_space text_or_empty text_of truthy is_taken
first_runs = refl

second_waits : ((queue_after true overlapping).tasks 1).phase ≡ waiting
unfolding task_steps task_step run_task proceed grant create_browser_task_coordinator choose trim
    trim_start trim_end is_space text_or_empty text_of truthy is_taken
second_waits = refl

two_were_made : (queue_after true overlapping).next ≡ 2
unfolding task_steps task_step run_task proceed grant create_browser_task_coordinator choose trim
    trim_start trim_end is_space text_or_empty text_of truthy is_taken
two_were_made = refl

running_alone_example : ◌≡◌ {A = ℕ} 0 0
running_alone_example =
    running_alone true overlapping 0 0 (omega (arith, two_were_made)) (omega (arith, two_were_made))
      refl (rw first_runs refl) (rw first_runs refl)

tasks_drain_example : Drains true (queue_after true overlapping)
tasks_drain_example = tasks_drain true overlapping

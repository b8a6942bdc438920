-- ===== src/Tasks/Queue.antt =====
-- public/browser-task-coordinator.js: createBrowserTaskCoordinator. A task is known by the number that it
-- was given; a settled promise calls its reactions in a later event.
use clairveil_samples.Js.{Value, is_empty, text_or_empty, trim}
use clairveil_samples.Prelude.{
  Bool, List, Option, Result, String, [], choose, false, if◌then◌else◌, ltb, none, not, ok, some,
  suc, throw, true, zero, ℕ, ◌&&◌, ◌-◌, ◌===◌, ◌==◌, ◌||◌, ◌∷◌,
}

-- A task waits for the one before it, asks for its lock, runs, and settles, whatever its outcome.
pub data Phase : Type 0 where
  waiting lock_asked running settled : Phase

pub record Task : Type 0 where
  pub lock_name : String
  pub generation : ℕ
  -- The task that it waits for; `none` stands for a promise that is resolved.
  pub after : Option ℕ
  pub phase : Phase

pub record TaskQueue : Type 0 where
  pub tail : Option ℕ
  pub pending : ℕ
  pub generation : ℕ
  pub tasks : ℕ → Task
  pub next : ℕ

unfoldable pub create_browser_task_coordinator : TaskQueue
create_browser_task_coordinator = record {
  tail = none;
  pending = 0;
  generation = 0;
  tasks = λ id. record { lock_name = ""; generation = 0; after = none; phase = settled };
  next = 0;
}

abbrev pub is_settled : Phase → Bool
is_settled settled = true
is_settled _ = false

abbrev pub is_waiting : Phase → Bool
is_waiting waiting = true
is_waiting _ = false

abbrev pub is_asked : Phase → Bool
is_asked lock_asked = true
is_asked _ = false

abbrev pub is_running : Phase → Bool
is_running running = true
is_running _ = false

abbrev pub put : ℕ → Task → (ℕ → Task) → ℕ → Task
put id t tasks j = if id == j then t else tasks j

abbrev pub to_phase : Phase → ℕ → TaskQueue → TaskQueue
to_phase p id q = record q { tasks = put id (record (q.tasks id) { phase = p }) q.tasks }

-- reset()
unfoldable pub reset : TaskQueue → TaskQueue
reset q = record q { generation = suc q.generation; tail = none; pending = 0 }

abbrev pub new_task : String → TaskQueue → Task
new_task lock_name q = record {
  lock_name = lock_name;
  generation = q.generation;
  after = q.tail;
  phase = waiting;
}

abbrev pub enqueued : String → TaskQueue → TaskQueue
enqueued lock_name q = record q {
  tail = some q.next;
  pending = suc q.pending;
  tasks = put q.next (new_task lock_name q) q.tasks;
  next = suc q.next;
}

-- run(lockName, task): the queue after the call, with the number of the task or the rejection.
unfoldable pub run_task : Value → Bool → TaskQueue → TaskQueue × Result ℕ
run_task lock_name is_function q =
    let normalized = trim (text_or_empty lock_name) in
    choose (not is_function) (q, throw "coordinated task must be a function")
      (choose (is_empty normalized) (q, throw "coordinated task requires a lock name")
        (enqueued normalized q, ok q.next))

abbrev pub turn_came : Option ℕ → (ℕ → Task) → Bool
turn_came none tasks = true
turn_came (some id) tasks = is_settled (tasks id).phase

-- The reaction to the settled tail: runLocked is called.
unfoldable pub proceed : ℕ → TaskQueue → TaskQueue
proceed id q =
    choose (ltb id q.next && is_waiting (q.tasks id).phase && turn_came (q.tasks id).after q.tasks)
      (to_phase lock_asked id q) q

-- A task among the first `n` runs under the lock.
unfoldable pub is_taken : String → (ℕ → Task) → ℕ → Bool
is_taken name tasks zero = false
is_taken name tasks (suc n) =
    is_running (tasks n).phase && (tasks n).lock_name === name || is_taken name tasks n

-- The task is called: at once where the browser has no locks, and otherwise when locks.request grants the
-- exclusive lock, which nothing of this page holds then.
unfoldable pub grant : Bool → ℕ → TaskQueue → TaskQueue
grant has_locks id q =
    choose
      (ltb id q.next
        && is_asked (q.tasks id).phase
        && (not has_locks || not (is_taken (q.tasks id).lock_name q.tasks q.next)))
      (to_phase running id q) q

abbrev pub finished : ℕ → TaskQueue → TaskQueue
finished id q =
    let after = to_phase settled id q in
    if (q.tasks id).generation == q.generation
    then record after { pending = q.pending - 1 }
    else after

-- The task settles, and `finally` counts it off.
unfoldable pub settle_task : ℕ → TaskQueue → TaskQueue
settle_task id q = choose (ltb id q.next && is_running (q.tasks id).phase) (finished id q) q

pub data TaskEvent : Type 0 where
  runs_task : Value → Bool → TaskEvent
  resets : TaskEvent
  proceeds grants settles_task : ℕ → TaskEvent

unfoldable pub task_step : Bool → TaskEvent → TaskQueue → TaskQueue
task_step has_locks (runs_task lock_name is_function) q = (run_task lock_name is_function q).0
task_step has_locks resets q = reset q
task_step has_locks (proceeds id) q = proceed id q
task_step has_locks (grants id) q = grant has_locks id q
task_step has_locks (settles_task id) q = settle_task id q

unfoldable pub task_steps : Bool → List TaskEvent → TaskQueue → TaskQueue
unfolding task_step
task_steps has_locks [] q = q
task_steps has_locks (e ∷ es) q = task_steps has_locks es (task_step has_locks e q)

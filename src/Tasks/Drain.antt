-- ===== src/Tasks/Drain.antt =====
-- No task of a browser waits for ever: public/browser-task-coordinator.js.
use clairveil_samples.Prelude.{
  All, Bool, Bool-cases, List, Option-cases, String, [], arith, choose_cases, false, inl, inr, ltb,
  ltb→lt, refl, suc, true, zero, ℕ, ◌<◌, ◌==◌, ◌∙◌, ◌∷◌, ◌≡◌, ◌≤◌, ◌⊎◌,
}
use clairveil_samples.Tasks.Invariant.{
  TasksInv, created-TasksInv, open_task, total, total-put, total_zero,
}
use clairveil_samples.Tasks.Queue.{
  Phase, Task, TaskEvent, TaskQueue, create_browser_task_coordinator, finished, grant, grants,
  is_asked, is_running, is_settled, is_taken, is_waiting, lock_asked, proceed, proceeds, running,
  settle_task, settled, settles_task, task_step, task_steps, to_phase, turn_came, waiting,
}
use clairveil_samples.Tasks.Serial.{queue_after, task_step-TasksInv, task_steps-TasksInv}

-- The moves that a task has before it.
abbrev moves_of : Phase → ℕ
moves_of waiting = 3
moves_of lock_asked = 2
moves_of running = 1
moves_of settled = 0

abbrev moves_left : Task → ℕ
moves_left t = moves_of t.phase

settled_at_zero : (p : Phase) → moves_of p ≡ 0 → is_settled p ≡ true
settled_at_zero settled h = refl
settled_at_zero _ h = absurd (omega (arith, h))

live_before_zero : (p : Phase) → 0 < moves_of p → is_settled p ≡ false
live_before_zero settled h = absurd (omega (arith, h))
live_before_zero _ h = refl

abbrev work : TaskQueue → ℕ
work q = total moves_left q.next q.tasks

-- What comes without a new call: reactions, grants of a lock, and tasks that settle.
abbrev pub IsMove : TaskEvent → Type 0
IsMove (proceeds id) = Unit
IsMove (grants id) = Unit
IsMove (settles_task id) = Unit
IsMove _ = ⊥

-- The first task that has not settled, of whatever generation.
record First (q : TaskQueue) (n : ℕ) : Type 0 where
  id : ℕ
  under : id < n
  live : is_settled (q.tasks id).phase ≡ false
  before : (i : ℕ) → i < id → is_settled (q.tasks i).phase ≡ true

find_First : (q : TaskQueue) (n : ℕ) → 0 < total moves_left n q.tasks → First q n
unfolding total
find_First q zero h = absurd (omega (arith, h))
find_First q (suc n) h = elim (Bool-cases (ltb 0 (total moves_left n q.tasks))) [
  | inl e ↦
      let f = find_First q n (ltb→lt 0 _ e) in
      record { id = f.id; under = omega (arith, f.under); live = f.live; before = f.before }
  | inr e ↦
      let none_before : total moves_left n q.tasks ≡ 0 = ground (arith, e) in
      record {
        id = n;
        under = omega arith;
        live = live_before_zero (q.tasks n).phase (omega (arith, h, none_before));
        before = λ i lt.
            settled_at_zero (q.tasks i).phase (total_zero moves_left n q.tasks none_before i lt);
      }
]

total_of_zeros :
    (w : Task → ℕ) (n : ℕ) (tasks : ℕ → Task)
    → ((i : ℕ) → i < n → w (tasks i) ≡ 0)
    → total w n tasks ≡ 0
unfolding total
total_of_zeros w zero tasks h = refl
total_of_zeros w (suc n) tasks h =
    omega (arith, h n (omega arith), total_of_zeros w n tasks (λ i lt. h i (omega (arith, lt))))

-- A lock that is taken is taken by a task that runs.
taken_by :
    (name : String) (tasks : ℕ → Task) (n : ℕ)
    → is_taken name tasks n ≡ true
    → (i : ℕ) × (i < n) × (is_running (tasks i).phase ≡ true)
unfolding is_taken
taken_by name tasks zero h = cc
taken_by name tasks (suc n) h = elim (Bool-cases (is_running (tasks n).phase)) [
  | inl e ↦ (n, omega arith, e)
  | inr e ↦
      let (i, lt, r) = taken_by name tasks n (ground (arith, e, h)) in (i, omega (arith, lt), r)
]

-- A move that takes work off, and makes and forgets no task.
Progress : Bool → TaskQueue → Type 0
Progress has_locks q =
    (e : TaskEvent) × IsMove e
    × (work (task_step has_locks e q) < work q)
    × ((task_step has_locks e q).next ≡ q.next)

less_work :
    (id : ℕ) (p : Phase) (q : TaskQueue)
    → id < q.next
    → moves_left (record (q.tasks id) { phase = p }) < moves_left (q.tasks id)
    → work (to_phase p id q) < work q
less_work id p q lt h =
    omega (arith, h, total-put moves_left q.next id (record (q.tasks id) { phase = p }) q.tasks lt)

settles-Progress :
    (has_locks : Bool) (id : ℕ) (q : TaskQueue)
    → id < q.next
    → is_running (q.tasks id).phase ≡ true
    → Progress has_locks q
unfolding Progress task_step settle_task
settles-Progress has_locks id q lt h = (
  settles_task id,
  tt,
  choose_cases (λ x. work x < work q) _ _ _ (λ _. finished_less)
      (λ no. absurd (ground (arith, no, lt, h))),
  choose_cases (λ (x : TaskQueue). x.next ≡ q.next) _ _ _ (λ _. finished_next) (λ _. refl),
)
  where
    finished_next : (finished id q).next ≡ q.next
    finished_next = elim (Bool-cases ((q.tasks id).generation == q.generation)) [
      | inl e ↦ rw e refl
      | inr e ↦ rw e refl
    ]

    finished_less : work (finished id q) < work q
    finished_less = elim (Bool-cases ((q.tasks id).generation == q.generation)) [
      | inl e ↦ rw e (less_work id settled q lt (ground (arith, h)))
      | inr e ↦ rw e (less_work id settled q lt (ground (arith, h)))
    ]

proceeds-Progress :
    (has_locks : Bool) (id : ℕ) (q : TaskQueue)
    → id < q.next
    → is_waiting (q.tasks id).phase ≡ true
    → turn_came (q.tasks id).after q.tasks ≡ true
    → Progress has_locks q
unfolding Progress task_step proceed
proceeds-Progress has_locks id q lt h came = (
  proceeds id,
  tt,
  choose_cases (λ x. work x < work q) _ _ _ (λ _. less_work id lock_asked q lt (ground (arith, h)))
      (λ no. absurd (ground (arith, no, lt, h, came))),
  choose_cases (λ (x : TaskQueue). x.next ≡ q.next) _ _ _ (λ _. refl) (λ _. refl),
)

grants-Progress :
    (has_locks : Bool) (id : ℕ) (q : TaskQueue)
    → id < q.next
    → is_asked (q.tasks id).phase ≡ true
    → is_taken (q.tasks id).lock_name q.tasks q.next ≡ false
    → Progress has_locks q
unfolding Progress task_step grant
grants-Progress has_locks id q lt h free = (
  grants id,
  tt,
  choose_cases (λ x. work x < work q) _ _ _ (λ _. less_work id running q lt (ground (arith, h)))
      (λ no. absurd (ground (arith, no, lt, h, free))),
  choose_cases (λ (x : TaskQueue). x.next ≡ q.next) _ _ _ (λ _. refl) (λ _. refl),
)

-- The turn of the first task that has not settled has come.
its_turn_came :
    (q : TaskQueue) (f : First q q.next)
    → TasksInv q
    → turn_came (q.tasks (f.id)).after q.tasks ≡ true
its_turn_came q f v = elim (Option-cases (q.tasks (f.id)).after) [
  | inl e ↦ rw e refl
  | inr (k, e) ↦ let (earlier, same) = v.earlier f.id k f.under e in rw e (f.before k earlier)
]

phase_cases :
    (p : Phase)
    → is_settled p ≡ false
    → (is_waiting p ≡ true) ⊎ (is_asked p ≡ true) ⊎ (is_running p ≡ true)
phase_cases waiting h = inl refl
phase_cases lock_asked h = inr (inl refl)
phase_cases running h = inr (inr refl)
phase_cases settled h = cc

progress : (has_locks : Bool) (q : TaskQueue) → TasksInv q → 0 < work q → Progress has_locks q
progress has_locks q v h =
    let f = find_First q q.next h in
    elim (phase_cases (q.tasks (f.id)).phase f.live) [
      | inl w ↦ proceeds-Progress has_locks f.id q f.under w (its_turn_came q f v)
      | inr (inl a) ↦ elim (Bool-cases (is_taken (q.tasks (f.id)).lock_name q.tasks q.next)) [
        | inl e ↦
            let (i, lt, r) = taken_by (q.tasks (f.id)).lock_name q.tasks q.next e in
            settles-Progress has_locks i q lt r
        | inr e ↦ grants-Progress has_locks f.id q f.under a e
      ]
      | inr (inr r) ↦ settles-Progress has_locks f.id q f.under r
    ]

-- Moves after which every task that was made has settled, of whatever generation, and nothing is pending.
abbrev pub Drains : Bool → TaskQueue → Type 0
Drains has_locks q =
    (es : List TaskEvent) × All IsMove es
    × ((task_steps has_locks es q).pending ≡ 0)
    × ((id : ℕ) → id < q.next → is_settled ((task_steps has_locks es q).tasks id).phase ≡ true)

no_open_task : (g : ℕ) (t : Task) → is_settled t.phase ≡ true → open_task g t ≡ 0
no_open_task g t h = ground (arith, h)

drained : (has_locks : Bool) (q : TaskQueue) → TasksInv q → work q ≡ 0 → Drains has_locks q
unfolding task_steps
drained has_locks q v h = (
  [],
  tt,
  v.counted
      ∙ total_of_zeros (open_task q.generation) q.next q.tasks
          (λ i lt. no_open_task q.generation (q.tasks i) (all_settled i lt)),
  all_settled,
)
  where
    all_settled : (i : ℕ) → i < q.next → is_settled (q.tasks i).phase ≡ true
    all_settled i lt =
        settled_at_zero (q.tasks i).phase (total_zero moves_left q.next q.tasks h i lt)

make_Drains :
    (has_locks : Bool) (fuel : ℕ) (q : TaskQueue) → TasksInv q → work q ≤ fuel → Drains has_locks q
unfolding task_steps Progress
make_Drains has_locks zero q v enough = drained has_locks q v (omega (arith, enough))
make_Drains has_locks (suc fuel) q v enough = elim (Bool-cases (ltb 0 (work q))) [
  | inr e ↦ drained has_locks q v (ground (arith, e))
  | inl e ↦
      let (m, move, less, next) = progress has_locks q v (ltb→lt 0 (work q) e) in
      let (ms, moves, done, all) =
        make_Drains has_locks fuel (task_step has_locks m q) (task_step-TasksInv has_locks m q v)
          (omega (arith, less, enough)) in
      (m ∷ ms, (move, moves), done, λ i lt. all i (omega (arith, lt, next)))
]

-- After any calls, resets and events, in browsers with or without locks, there are reactions, grants and
-- tasks that settle after which every task that was ever made has settled, those of earlier generations
-- too, and no task is pending.
pub tasks_drain :
    (has_locks : Bool) (es : List TaskEvent) → Drains has_locks (queue_after has_locks es)
tasks_drain has_locks es =
    make_Drains has_locks (work (queue_after has_locks es)) (queue_after has_locks es)
      (task_steps-TasksInv has_locks es create_browser_task_coordinator created-TasksInv)
      (omega arith)

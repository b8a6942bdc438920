-- ===== src/Tasks/Serial.antt =====
-- Tasks of a generation run one at a time: public/browser-task-coordinator.js.
use clairveil_samples.Js.{Value, text_or_empty, trim}
use clairveil_samples.Prelude.{
  ==_iff, Bool, Bool-cases, List, Result, [], arith, choose_cases, choose_keeps, false, inl, inr,
  ltb, ltb→lt, refl, subst, sym, true, ℕ, ◌-◌, ◌<◌, ◌==◌, ◌∙◌, ◌∷◌, ◌≡◌, ◌≢◌,
}
use clairveil_samples.Tasks.Invariant.{TasksInv, created-TasksInv, open_task, total, total-put}
use clairveil_samples.Tasks.Keeps.{enqueued-TasksInv, moved-TasksInv, reset-TasksInv}
use clairveil_samples.Tasks.Queue.{
  Phase, TaskEvent, TaskQueue, create_browser_task_coordinator, finished, grant, grants, is_running,
  is_settled, is_waiting, lock_asked, proceed, proceeds, resets, run_task, running, runs_task,
  settle_task, settled, settles_task, task_step, task_steps, to_phase, turn_came, waiting,
}

abbrev Settled : TaskQueue → ℕ → Type 0
Settled q i = is_settled (q.tasks i).phase ≡ true

-- Where the turn of a task has come, those before it have settled.
came_after_all :
    (q : TaskQueue) (id : ℕ)
    → TasksInv q
    → id < q.next
    → turn_came (q.tasks id).after q.tasks ≡ true
    → (i : ℕ) → i < id
    → (q.tasks i).generation ≡ (q.tasks id).generation
    → Settled q i
came_after_all q id v lt h i before same =
    let (k, is_after, le) = v.last_before i id before lt same in
    let came : is_settled (q.tasks k).phase ≡ true =
      subst (λ o. turn_came o q.tasks ≡ true) is_after h in
    let (earlier, same_k) = v.earlier id k lt is_after in
    elim (Bool-cases (i == k)) [
      | inl e ↦ subst (λ j. Settled q j) (sym ((==_iff i k).0 e)) came
      | inr e ↦
          v.in_turn i k (ground (arith, e, le)) (omega (arith, earlier, lt)) (same ∙ sym same_k)
            (settled_no_wait (q.tasks k).phase came)
    ]
  where
    settled_no_wait : (p : Phase) → is_settled p ≡ true → is_waiting p ≡ false
    settled_no_wait waiting h = cc
    settled_no_wait lock_asked h = refl
    settled_no_wait running h = refl
    settled_no_wait settled h = refl

-- Changing the phase of an open task to an open one changes no count.
count_same :
    (id : ℕ) (p : Phase) (q : TaskQueue)
    → id < q.next
    → is_settled (q.tasks id).phase ≡ false
    → is_settled p ≡ false
    → total (open_task q.generation) q.next (to_phase p id q).tasks
      ≡ total (open_task q.generation) q.next q.tasks
count_same id p q lt live h = ground (
  arith,
  h,
  live,
  total-put (open_task q.generation) q.next id (record (q.tasks id) { phase = p }) q.tasks lt,
)

not_waiting_turn :
    (q : TaskQueue) (id : ℕ)
    → TasksInv q
    → id < q.next
    → is_waiting (q.tasks id).phase ≡ false
    → (i : ℕ) → i < id
    → (q.tasks i).generation ≡ (q.tasks id).generation
    → Settled q i
not_waiting_turn q id v lt h i before same = v.in_turn i id before lt same h

proceed-TasksInv : (id : ℕ) (q : TaskQueue) → TasksInv q → TasksInv (proceed id q)
unfolding proceed
proceed-TasksInv id q v =
    choose_cases TasksInv _ _ _
      (λ h.
        let lt : id < q.next = ground (arith, h) in
        let live : is_settled (q.tasks id).phase ≡ false = ground (arith, h) in
        moved-TasksInv id lock_asked q.pending q v lt live
          (came_after_all q id v lt (ground (arith, h)))
          (v.counted ∙ sym (count_same id lock_asked q lt live refl)))
      (λ h. v)

grant-TasksInv :
    (has_locks : Bool) (id : ℕ) (q : TaskQueue) → TasksInv q → TasksInv (grant has_locks id q)
unfolding grant
grant-TasksInv has_locks id q v =
    choose_cases TasksInv _ _ _
      (λ h.
        let lt : id < q.next = ground (arith, h) in
        let live : is_settled (q.tasks id).phase ≡ false = ground (arith, h) in
        moved-TasksInv id running q.pending q v lt live
          (not_waiting_turn q id v lt (ground (arith, h)))
          (v.counted ∙ sym (count_same id running q lt live refl)))
      (λ h. v)

finished-TasksInv :
    (id : ℕ) (q : TaskQueue)
    → TasksInv q
    → id < q.next
    → is_running (q.tasks id).phase ≡ true
    → TasksInv (finished id q)
finished-TasksInv id q v lt h =
    let live : is_settled (q.tasks id).phase ≡ false = ground (arith, h) in
    let turn = not_waiting_turn q id v lt (ground (arith, h)) in
    let counts =
      total-put (open_task q.generation) q.next id (record (q.tasks id) { phase = settled }) q.tasks
        lt in
    elim (Bool-cases ((q.tasks id).generation == q.generation)) [
      | inl e ↦ rw e (
          moved-TasksInv id settled (q.pending - 1) q v lt live turn
            (ground (arith, e, live, counts, v.counted)))
      | inr e ↦ rw e (
          moved-TasksInv id settled q.pending q v lt live turn
            (ground (arith, e, live, counts, v.counted)))
    ]

settle_task-TasksInv : (id : ℕ) (q : TaskQueue) → TasksInv q → TasksInv (settle_task id q)
unfolding settle_task
settle_task-TasksInv id q v =
    choose_cases TasksInv _ _ _
      (λ h. finished-TasksInv id q v (ground (arith, h)) (ground (arith, h))) (λ h. v)

run-TasksInv :
    (name : Value) (is_function : Bool) (q : TaskQueue)
    → TasksInv q
    → TasksInv (run_task name is_function q).0
unfolding run_task
run-TasksInv name is_function q v =
    choose_keeps (λ (x : TaskQueue × Result ℕ). TasksInv (x.0)) _ _ _ v
      (choose_keeps (λ (x : TaskQueue × Result ℕ). TasksInv (x.0)) _ _ _ v
        (enqueued-TasksInv (trim (text_or_empty name)) q v))

pub task_step-TasksInv :
    (has_locks : Bool) (e : TaskEvent) (q : TaskQueue)
    → TasksInv q
    → TasksInv (task_step has_locks e q)
unfolding task_step
task_step-TasksInv has_locks (runs_task name is_function) q v = run-TasksInv name is_function q v
task_step-TasksInv has_locks resets q v = reset-TasksInv q v
task_step-TasksInv has_locks (proceeds id) q v = proceed-TasksInv id q v
task_step-TasksInv has_locks (grants id) q v = grant-TasksInv has_locks id q v
task_step-TasksInv has_locks (settles_task id) q v = settle_task-TasksInv id q v

pub task_steps-TasksInv :
    (has_locks : Bool) (es : List TaskEvent) (q : TaskQueue)
    → TasksInv q
    → TasksInv (task_steps has_locks es q)
unfolding task_steps
task_steps-TasksInv has_locks [] q v = v
task_steps-TasksInv has_locks (e ∷ es) q v =
    task_steps-TasksInv has_locks es (task_step has_locks e q) (task_step-TasksInv has_locks e q v)

-- The queue after events, from the beginning.
abbrev pub queue_after : Bool → List TaskEvent → TaskQueue
queue_after has_locks es = task_steps has_locks es create_browser_task_coordinator

-- After any calls and events, in browsers with or without locks, two tasks of one generation that both
-- run are the same task.
pub running_alone :
    (has_locks : Bool) (es : List TaskEvent) (i j : ℕ)
    → i < (queue_after has_locks es).next
    → j < (queue_after has_locks es).next
    → ((queue_after has_locks es).tasks i).generation
      ≡ ((queue_after has_locks es).tasks j).generation
    → is_running ((queue_after has_locks es).tasks i).phase ≡ true
    → is_running ((queue_after has_locks es).tasks j).phase ≡ true
    → i ≡ j
running_alone has_locks es i j h k same r s =
    let q = queue_after has_locks es in
    let v = task_steps-TasksInv has_locks es create_browser_task_coordinator created-TasksInv in
    elim (Bool-cases (ltb i j)) [
      | inl e ↦
          absurd (running_open _ r (v.in_turn i j (ltb→lt i j e) k same (running_no_wait _ s)))
      | inr e ↦ elim (Bool-cases (ltb j i)) [
        | inl f ↦
            absurd
              (running_open _ s (v.in_turn j i (ltb→lt j i f) h (sym same) (running_no_wait _ r)))
        | inr f ↦ ground (arith, e, f)
      ]
    ]
  where
    running_open : (p : Phase) → is_running p ≡ true → is_settled p ≢ true
    running_open p h k = ground (arith, h, k)

    running_no_wait : (p : Phase) → is_running p ≡ true → is_waiting p ≡ false
    running_no_wait p h = ground (arith, h)

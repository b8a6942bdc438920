-- ===== src/Tasks/Invariant.antt =====
-- What holds of the tasks of a browser at any time.
use clairveil_samples.Prelude.{
  ==_iff, Bool-cases, ap, arith, false, if◌then◌else◌, inl, inr, not, refl, some, suc, true, zero,
  ℕ, ◌&&◌, ◌+◌, ◌<◌, ◌==◌, ◌≡◌, ◌≤◌,
}
use clairveil_samples.Tasks.Queue.{
  Task, TaskQueue, create_browser_task_coordinator, is_settled, is_waiting, put,
}

-- The sum of a weight over the first `n` tasks.
unfoldable pub total : (Task → ℕ) → ℕ → (ℕ → Task) → ℕ
total w zero tasks = 0
total w (suc n) tasks = w (tasks n) + total w n tasks

pub total-put_absent :
    (w : Task → ℕ) (n id : ℕ) (t : Task) (tasks : ℕ → Task)
    → n ≤ id
    → total w n (put id t tasks) ≡ total w n tasks
unfolding total
total-put_absent w zero id t tasks h = refl
total-put_absent w (suc n) id t tasks h = ground (arith, h, total-put_absent w n id t tasks)

pub total-put :
    (w : Task → ℕ) (n id : ℕ) (t : Task) (tasks : ℕ → Task)
    → id < n
    → total w n (put id t tasks) + w (tasks id) ≡ total w n tasks + w t
unfolding total
total-put w zero id t tasks h = omega arith
total-put w (suc n) id t tasks h = elim (Bool-cases (id == n)) [
  | inl e ↦
      ground
        (arith, e, total-put_absent w n id t tasks, ap (λ (k : ℕ). w (tasks k)) ((==_iff id n).0 e))
  | inr e ↦ ground (arith, e, total-put w n id t tasks)
]

pub total_zero :
    (w : Task → ℕ) (n : ℕ) (tasks : ℕ → Task)
    → total w n tasks ≡ 0
    → (j : ℕ) → j < n
    → w (tasks j) ≡ 0
unfolding total
total_zero w zero tasks h j lt = absurd (omega arith)
total_zero w (suc n) tasks h j lt = elim (Bool-cases (j == n)) [
  | inl e ↦ omega (arith, h, ap (λ (k : ℕ). w (tasks k)) ((==_iff j n).0 e))
  | inr e ↦ total_zero w n tasks (omega (arith, h)) j (ground (arith, e, lt))
]

-- An open task of the generation counts once.
abbrev pub open_task : ℕ → Task → ℕ
open_task g t = if t.generation == g && not (is_settled t.phase) then 1 else 0

pub record TasksInv (q : TaskQueue) : Type 0 where
  pub counted : q.pending ≡ total (open_task q.generation) q.next q.tasks
  pub generations : (i : ℕ) → i < q.next → (q.tasks i).generation ≤ q.generation
  -- A task waits for an earlier one of its generation, and for the last of those before it.
  pub earlier :
      (i k : ℕ)
      → i < q.next
      → (q.tasks i).after ≡ some k
      → (k < i) × ((q.tasks k).generation ≡ (q.tasks i).generation)
  pub last_before :
      (i j : ℕ)
      → i < j
      → j < q.next
      → (q.tasks i).generation ≡ (q.tasks j).generation
      → (k : ℕ) × ((q.tasks j).after ≡ some k) × (i ≤ k)
  pub tail_earlier :
      (k : ℕ) → q.tail ≡ some k → (k < q.next) × ((q.tasks k).generation ≡ q.generation)
  pub tail_last :
      (i : ℕ)
      → i < q.next
      → (q.tasks i).generation ≡ q.generation
      → (k : ℕ) × (q.tail ≡ some k) × (i ≤ k)
  -- Whoever no longer waits has only settled tasks of its generation before it.
  pub in_turn :
      (i j : ℕ)
      → i < j
      → j < q.next
      → (q.tasks i).generation ≡ (q.tasks j).generation
      → is_waiting (q.tasks j).phase ≡ false
      → is_settled (q.tasks i).phase ≡ true

pub created-TasksInv : TasksInv create_browser_task_coordinator
unfolding create_browser_task_coordinator total
created-TasksInv = record {
  counted = refl;
  generations = λ i h. omega arith;
  earlier = λ i k h e. absurd (omega arith);
  last_before = λ i j h k e. absurd (omega arith);
  tail_earlier = λ k h. cc;
  tail_last = λ i h. absurd (omega arith);
  in_turn = λ i j h k e f. absurd (omega arith);
}

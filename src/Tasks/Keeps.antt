-- ===== src/Tasks/Keeps.antt =====
-- Every event keeps the tasks of a browser in order.
use clairveil_samples.Prelude.{
  Bool-cases, String, arith, false, inl, inr, refl, suc, sym, true, zero, ℕ, ◌<◌, ◌==◌, ◌≡◌, ◌≤◌,
}
use clairveil_samples.Tasks.Invariant.{TasksInv, open_task, total, total-put_absent}
use clairveil_samples.Tasks.Queue.{
  Phase, Task, TaskQueue, enqueued, is_settled, new_task, reset, to_phase,
}

pub enqueued-TasksInv : (name : String) (q : TaskQueue) → TasksInv q → TasksInv (enqueued name q)
unfolding total
enqueued-TasksInv name q v = record {
  counted = ground (
    arith,
    v.counted,
    total-put_absent (open_task q.generation) q.next q.next (new_task name q) q.tasks,
  );
  generations = λ i h. ground (arith, v.generations i);
  earlier = λ i k h e. ground (arith, v.earlier i k, v.tail_earlier k);
  last_before = λ i j h k e. elim (Bool-cases (q.next == j)) [
    | inl at ↦
        let (t, e₁, le) = v.tail_last i (ground (arith, at, h)) (ground (arith, at, h, e)) in
        (t, ground (arith, at, e₁), le)
    | inr old ↦
        let (t, e₁, le) =
          v.last_before i j h (ground (arith, old, k)) (ground (arith, old, h, k, e)) in
        (t, ground (arith, old, e₁), le)
  ];
  tail_earlier = λ k h. ground (arith, h);
  tail_last = λ i h e. (q.next, refl, ground (arith, h));
  in_turn = λ i j h k e f. ground (arith, v.in_turn i j);
}

total_old :
    (g n : ℕ) (tasks : ℕ → Task)
    → ((i : ℕ) → i < n → (tasks i).generation ≤ g)
    → total (open_task (suc g)) n tasks ≡ 0
unfolding total
total_old g zero tasks h = refl
total_old g (suc n) tasks h =
    ground (arith, h n (omega arith), total_old g n tasks (λ i lt. h i (omega (arith, lt))))

pub reset-TasksInv : (q : TaskQueue) → TasksInv q → TasksInv (reset q)
unfolding reset
reset-TasksInv q v = record {
  counted = sym (total_old q.generation q.next q.tasks v.generations);
  generations = λ i h. ground (arith, v.generations i h);
  earlier = v.earlier;
  last_before = v.last_before;
  tail_earlier = λ k h. cc;
  tail_last = λ i h e. absurd (ground (arith, v.generations i h, e));
  in_turn = v.in_turn;
}

pub moved-TasksInv :
    (id : ℕ) (p : Phase) (pending : ℕ) (q : TaskQueue)
    → TasksInv q
    → id < q.next
    → is_settled (q.tasks id).phase ≡ false
    → ((i : ℕ)
        → i < id
        → (q.tasks i).generation ≡ (q.tasks id).generation
        → is_settled (q.tasks i).phase ≡ true)
    → pending ≡ total (open_task q.generation) q.next (to_phase p id q).tasks
    → TasksInv (record (to_phase p id q) { pending = pending })
moved-TasksInv id p pending q v lt live turn c = record {
  counted = c;
  generations = λ i h. ground (arith, v.generations i h);
  earlier = λ i k h e. ground (arith, v.earlier i k h);
  last_before = λ i j h k e.
      let (t, e₁, le) = v.last_before i j h k (ground (arith, e)) in (t, ground (arith, e₁), le);
  tail_earlier = λ k h. ground (arith, v.tail_earlier k h);
  tail_last = λ i h e. v.tail_last i h (ground (arith, e));
  in_turn = λ i j h k e f. ground (arith, v.in_turn i j h k, turn i);
}

-- ===== src/Actions/Turns.antt =====
-- No action ends another.
use clairveil_samples.Actions.Gate.{
  ActionEvent, ActionGate, Token, cancel, cancels_action, gate_step, gate_steps, invalidate,
  invalidates, new_action, run_action, run_with, runs_action, settle, settles_action,
}
use clairveil_samples.Js.{Value}
use clairveil_samples.Prelude.{
  Bool, List, Option, Option-cases, [], arith, false, inl, inr, none, ok, refl, some, true, ℕ, ◌+◌,
  ◌<◌, ◌∷◌, ◌≡◌, ◌≤◌,
}

run_action-generation :
    (action : Value) (task : Bool) (g : ActionGate)
    → g.generation ≤ (run_action action task g).0.generation
unfolding run_action
run_action-generation action task g = elim (Option-cases g.active) [
  | inl free ↦ rw free (ground arith)
  | inr (token, busy) ↦ rw busy (ground arith)
]

settle-generation : (id : ℕ) (g : ActionGate) → (settle id g).generation ≡ g.generation
unfolding settle
settle-generation id g = elim (Option-cases g.active) [
  | inl free ↦ ground (arith, free)
  | inr (token, busy) ↦ ground (arith, busy)
]

cancel-generation :
    (action : Value) (g : ActionGate) → (cancel action g).0.generation ≡ g.generation
unfolding cancel
cancel-generation action g = elim (Option-cases g.active) [
  | inl free ↦ ground (arith, free)
  | inr (token, busy) ↦ ground (arith, busy)
]

gate_step-generation :
    (e : ActionEvent) (g : ActionGate) → g.generation ≤ (gate_step e g).generation
unfolding gate_step invalidate
gate_step-generation (runs_action action task) g = run_action-generation action task g
gate_step-generation (settles_action id) g = omega (arith, settle-generation id g)
gate_step-generation (cancels_action action) g = omega (arith, cancel-generation action g)
gate_step-generation invalidates g = omega arith

gate_steps-generation :
    (es : List ActionEvent) (g : ActionGate) → g.generation ≤ (gate_steps es g).generation
unfolding gate_steps
gate_steps-generation [] g = omega arith
gate_steps-generation (e ∷ es) g =
    omega (arith, gate_step-generation e g, gate_steps-generation es (gate_step e g))

-- What a new action is.
record Begun (g h : ActionGate) (id : ℕ) : Type 0 where
  number_of : id ≡ g.generation + 1
  after : h.generation ≡ g.generation + 1
  token : Token
  active : h.active ≡ some token
  token_is : token.generation ≡ id

run_with-Begun :
    (action : Value) (task : Bool) (g : ActionGate) (active : Option Token) (id : ℕ)
    → (run_with action task g active).1 ≡ ok (new_action id)
    → Begun g (run_with action task g active).0 id
run_with-Begun action task g (some token) id h = cc
run_with-Begun action false g none id h = cc
run_with-Begun action true g none id h = record {
  number_of = ground (arith, h);
  after = refl;
  token = _;
  active = refl;
  token_is = ground (arith, h);
}

run_action-Begun :
    (action : Value) (task : Bool) (g : ActionGate) (id : ℕ)
    → (run_action action task g).1 ≡ ok (new_action id)
    → Begun g (run_action action task g).0 id
unfolding run_action
run_action-Begun action task g id h = run_with-Begun action task g g.active id h

settle_other :
    (id : ℕ) (g : ActionGate) (token : Token)
    → g.active ≡ some token
    → id < token.generation
    → settle id g ≡ g
unfolding settle
settle_other id g token busy earlier = rw busy (ground (arith, earlier, busy))

-- The end of an action never ends a later one: where an action was started, and another one after any
-- calls since, settling the first leaves the gate as it is.
pub stale_settle_keeps :
    (g : ActionGate) (es : List ActionEvent) (first later : Value) (id next : ℕ)
    → (run_action first true g).1 ≡ ok (new_action id)
    → (run_action later true (gate_steps es (run_action first true g).0)).1 ≡ ok (new_action next)
    → settle id (run_action later true (gate_steps es (run_action first true g).0)).0
      ≡ (run_action later true (gate_steps es (run_action first true g).0)).0
stale_settle_keeps g es first later id next h h' =
    let a = run_action-Begun first true g id h in
    let c = gate_steps es (run_action first true g).0 in
    let b = run_action-Begun later true c next h' in
    settle_other id (run_action later true c).0 b.token b.active (
      omega (
        arith,
        a.number_of,
        a.after,
        b.number_of,
        b.token_is,
        gate_steps-generation es (run_action first true g).0,
      ))

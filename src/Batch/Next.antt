-- ===== src/Batch/Next.antt =====
-- The next atomic batch: what it is, and when there is one.
use clairveil_samples.Batch.Amounts.{bounded_count, positive_integer}
use clairveil_samples.Batch.Planning.{Added, amount_or_zero, plan-Added}
use clairveil_samples.Batch.Select.{
  not_empty, output_count, payment_amount, plan, select_next_atomic_batch_payments, take_payment,
}
use clairveil_samples.Js.{Value}
use clairveil_samples.Prelude.{
  >>=-eq-ok, Bool-cases, List, Result, [], and-eq-true, ap, arith, choose, every, false, inl, inr,
  length, ltb, ok, ok_injective, refl, subst, sym, throw, true, ℕ, ◌+◌, ◌<◌, ◌==◌, ◌>>=◌, ◌∙◌, ◌∷◌,
  ◌≡◌, ◌≤◌,
}

nonempty :
    (planned : Result (List Value)) (group : List Value)
    → (planned >>= not_empty) ≡ ok group
    → (planned ≡ ok group) × (0 < length group)
nonempty (throw error) group h = cc
nonempty (ok []) group h = cc
nonempty (ok (payment ∷ payments)) group h =
    let e : payment ∷ payments ≡ group = ok_injective h in
    (ap ok e, subst (λ l. 0 < length l) e (ground arith))

-- The batch that is selected is a beginning of the payments and not empty; its amounts are positive and
-- their sum is within the input capacity; its outputs, with one for change unless the capacity is met
-- exactly, are within the output limit; and the next payment would break one of the two limits.
pub select_next-Added :
    (payments : List Value) (input_capacity max_outputs : Value) (group : List Value)
    → select_next_atomic_batch_payments payments input_capacity max_outputs ≡ ok group
    → (capacity : ℕ) × (output_limit : ℕ) × (positive_integer input_capacity
          "atomic batch input capacity"
        ≡ ok capacity)
      × (bounded_count max_outputs "atomic batch output capacity" 32 ≡ ok output_limit)
      × (0 < length group)
      × Added capacity output_limit 0 0 payments group
unfolding select_next_atomic_batch_payments
select_next-Added payments input_capacity max_outputs group h =
    let (capacity, read, h₁) =
      >>=-eq-ok (positive_integer input_capacity "atomic batch input capacity") _ h in
    let (output_limit, bounded, h₂) =
      >>=-eq-ok (bounded_count max_outputs "atomic batch output capacity" 32) _ h₁ in
    elim (Bool-cases (capacity == 0)) [
      | inl none_left ↦ absurd (ground (arith, none_left, h₂))
      | inr left ↦
          let (planned, more) =
            nonempty (plan capacity output_limit 0 0 payments) group (rw left at h₂) in
          (
            capacity,
            output_limit,
            read,
            bounded,
            more,
            plan-Added capacity output_limit 0 0 payments group (omega arith) planned,
          )
    ]

-- Payments whose amounts can be read and are positive.
abbrev pub AllPayable : List Value → Type 0
AllPayable payments = every (λ payment. ltb 0 (amount_or_zero payment)) payments ≡ true

payable :
    (payment : Value)
    → ltb 0 (amount_or_zero payment) ≡ true
    → payment_amount payment ≡ ok (amount_or_zero payment)
unfolding amount_or_zero
payable payment h = ground (arith, h)

-- What the turns of the loop give, where each may be the last.
take_payment_returns :
    (capacity output_limit count total : ℕ) (payment : Value) (amount : ℕ) (later : List Value)
    → 0 < amount
    → (count ≡ 0 → amount ≤ capacity)
    → (group : List Value) × (take_payment capacity output_limit count total payment amount
          (ok later)
        ≡ ok group)
unfolding take_payment choose
take_payment_returns capacity output_limit count total payment amount later spent fits =
    elim (Bool-cases (ltb capacity (total + amount))) [
      | inl over ↦ ([], ground (arith, spent, fits, over))
      | inr under ↦
          elim (Bool-cases
            (ltb output_limit (output_count (count + 1) (total + amount) capacity))) [
              | inl many ↦ ([], ground (arith, spent, fits, under, many))
              | inr few ↦ (payment ∷ later, ground (arith, spent, fits, under, few))
            ]
    ]

plan_returns :
    (capacity output_limit count total : ℕ) (payments : List Value)
    → AllPayable payments
    → 0 < count
    → (group : List Value) × (plan capacity output_limit count total payments ≡ ok group)
unfolding plan
plan_returns capacity output_limit count total [] all some_count = ([], refl)
plan_returns capacity output_limit count total (payment ∷ payments) all some_count =
    let amount = amount_or_zero payment in
    let (here, rest) = and-eq-true (ltb 0 (amount_or_zero payment)) _ all in
    let (later, planned) =
      plan_returns capacity output_limit (count + 1) (total + amount) payments rest (omega arith) in
    rw (payable payment here, planned)
      (take_payment_returns capacity output_limit count total payment amount later
        (ground (arith, here)) (λ e. omega (arith, e, some_count)))

first_fits :
    (capacity output_limit : ℕ) (payment : Value) (amount : ℕ) (later : List Value)
    → 0 < amount
    → amount ≤ capacity
    → output_count 1 amount capacity ≤ output_limit
    → take_payment capacity output_limit 0 0 payment amount (ok later) ≡ ok (payment ∷ later)
unfolding take_payment choose
first_fits capacity output_limit payment amount later spent fits few =
    ground (arith, spent, fits, few)

plan_first :
    (capacity output_limit : ℕ) (payment : Value) (payments later : List Value)
    → ltb 0 (amount_or_zero payment) ≡ true
    → amount_or_zero payment ≤ capacity
    → output_count 1 (amount_or_zero payment) capacity ≤ output_limit
    → plan capacity output_limit 1 (0 + amount_or_zero payment) payments ≡ ok later
    → plan capacity output_limit 0 0 (payment ∷ payments) ≡ ok (payment ∷ later)
unfolding plan
plan_first capacity output_limit payment payments later here fits few planned =
    let amount = amount_or_zero payment in
    subst
      (λ r.
        (r >>= λ n.
        take_payment capacity output_limit 0 0 payment n
          (plan capacity output_limit (0 + 1) (0 + n) payments))
        ≡ ok (payment ∷ later))
      (sym (payable payment here))
      (ap (take_payment capacity output_limit 0 0 payment amount) planned
        ∙ first_fits capacity output_limit payment amount later (ground (arith, here)) fits few)

-- Where all payments have positive amounts, and the first fits the input capacity and leaves room for
-- its outputs, a next batch is selected, and the first payment is in it.
pub select_next_returns :
    (payment : Value) (payments : List Value) (input_capacity max_outputs : Value)
    (capacity output_limit : ℕ)
    → positive_integer input_capacity "atomic batch input capacity" ≡ ok capacity
    → bounded_count max_outputs "atomic batch output capacity" 32 ≡ ok output_limit
    → AllPayable (payment ∷ payments)
    → amount_or_zero payment ≤ capacity
    → output_count 1 (amount_or_zero payment) capacity ≤ output_limit
    → (group : List Value) × (select_next_atomic_batch_payments
          (payment ∷ payments)
          input_capacity
          max_outputs
        ≡ ok (payment ∷ group))
unfolding select_next_atomic_batch_payments
select_next_returns payment payments input_capacity max_outputs capacity output_limit read bounded
      all fits few =
    let (here, rest) = and-eq-true (ltb 0 (amount_or_zero payment)) _ all in
    let (later, planned) =
      plan_returns capacity output_limit 1 (0 + amount_or_zero payment) payments rest
        (omega arith) in
    let first = plan_first capacity output_limit payment payments later here fits few planned in
    let left : (capacity == 0) ≡ false = ground (arith, here, fits) in
    (later, rw (read, bounded, left, first) refl)

-- ===== src/Batch/Planning.antt =====
-- What the loop over the payments adds to a batch.
use clairveil_samples.Batch.Select.{output_count, payment_amount, plan, take_payment}
use clairveil_samples.Js.{Value, message}
use clairveil_samples.Prelude.{
  >>=-eq-ok, List, Result, [], ap, arith, choose_cases, every, false, inl, inr, length, ltb, ok,
  ok_injective, refl, subst, suc, sym, throw, true, ℕ, ◌&&◌, ◌++◌, ◌+◌, ◌<◌, ◌==◌, ◌>>=◌, ◌∷◌, ◌≡◌,
  ◌≤◌, ◌⊎◌,
}

-- What the amounts of payments come to, where they can be read.
unfoldable pub amount_or_zero : Value → ℕ
amount_or_zero payment = elim (payment_amount payment) [ ok n ↦ n | throw e ↦ 0 ]

pub total_of : List Value → ℕ
unfolding amount_or_zero
total_of [] = 0
total_of (payment ∷ payments) = amount_or_zero payment + total_of payments

-- What a group of payments left over may not begin with: a payment that still fits.
abbrev pub NoneFits : ℕ → ℕ → ℕ → ℕ → List Value → Type 0
NoneFits capacity output_limit count total [] = Unit
NoneFits capacity output_limit count total (payment ∷ rest) =
    capacity < total + amount_or_zero payment
    ⊎ output_limit < output_count (count + 1) (total + amount_or_zero payment) capacity

-- A group that the loop adds to `count` payments of `total`.
pub record Added (capacity output_limit count total : ℕ) (payments group : List Value)
    : Type 0 where
  rest : List Value
  split : payments ≡ group ++ rest
  fits : total + total_of group ≤ capacity
  outputs :
      (length group ≡ 0)
      ⊎ (output_count (count + length group) (total + total_of group) capacity ≤ output_limit)
  positive : every (λ payment. ltb 0 (amount_or_zero payment)) group ≡ true
  greedy : NoneFits capacity output_limit (count + length group) (total + total_of group) rest

amount_of_ok :
    (payment : Value) (n : ℕ) → payment_amount payment ≡ ok n → amount_or_zero payment ≡ n
unfolding amount_or_zero
amount_of_ok payment n h = ground (arith, h)

push_outputs :
    (capacity output_limit count total amount : ℕ) (group : List Value)
    → (output_count (count + 1) (total + amount) capacity ≤ output_limit)
    → (length group ≡ 0)
      ⊎ (output_count (count + 1 + length group) (total + amount + total_of group) capacity
          ≤ output_limit)
    → output_count (count + suc (length group)) (total + (amount + total_of group)) capacity
      ≤ output_limit
unfolding total_of
push_outputs capacity output_limit count total amount [] outs h = ground (arith, outs)
push_outputs capacity output_limit count total amount (payment ∷ group) outs (inl none_added) =
    ground (arith, none_added)
push_outputs capacity output_limit count total amount (payment ∷ group) outs (inr h) =
    ground (arith, h)

still_greedy :
    (capacity output_limit count total amount : ℕ) (group rest : List Value)
    → NoneFits capacity output_limit
        (count + 1 + length group)
        (total + amount + total_of group)
        rest
    → NoneFits capacity output_limit
        (count + suc (length group))
        (total + (amount + total_of group))
        rest
still_greedy capacity output_limit count total amount group [] h = tt
still_greedy capacity output_limit count total amount group (payment ∷ rest) h = ground (arith, h)

push-Added :
    (capacity output_limit count total : ℕ) (payment : Value) (payments group : List Value)
    → (0 < amount_or_zero payment)
    → (output_count (count + 1) (total + amount_or_zero payment) capacity ≤ output_limit)
    → Added capacity output_limit (count + 1) (total + amount_or_zero payment) payments group
    → Added capacity output_limit count total (payment ∷ payments) (payment ∷ group)
unfolding total_of
push-Added capacity output_limit count total payment payments group pos outs a = record {
  rest = a.rest;
  split = ap (λ (l : List Value). payment ∷ l) a.split;
  fits = omega (arith, a.fits);
  outputs = inr (push_outputs capacity output_limit count total _ group outs a.outputs);
  positive = ground (arith, pos, a.positive);
  greedy = still_greedy capacity output_limit count total _ group a.rest a.greedy;
}

stop-Added :
    (capacity output_limit count total : ℕ) (payments group : List Value)
    → [] ≡ group
    → total ≤ capacity
    → NoneFits capacity output_limit count total payments
    → Added capacity output_limit count total payments group
unfolding total_of
stop-Added capacity output_limit count total payments group e room none_fits =
    subst (Added capacity output_limit count total payments) e (record {
      rest = payments;
      split = refl;
      fits = omega (arith, room);
      outputs = inl refl;
      positive = refl;
      greedy = stays payments none_fits;
    })
  where
    stays :
        (rest : List Value)
        → NoneFits capacity output_limit count total rest
        → NoneFits capacity output_limit (count + 0) (total + 0) rest
    stays [] h = tt
    stays (payment ∷ rest) h = ground (arith, h)

take_payment-Added :
    (capacity output_limit count total : ℕ) (payment : Value) (amount : ℕ) (payments : List Value)
    (rest : Result (List Value)) (group : List Value)
    → amount_or_zero payment ≡ amount
    → total ≤ capacity
    → ((later : List Value)
        → total + amount ≤ capacity
        → rest ≡ ok later
        → Added capacity output_limit (count + 1) (total + amount) payments later)
    → take_payment capacity output_limit count total payment amount rest ≡ ok group
    → Added capacity output_limit count total (payment ∷ payments) group
unfolding take_payment
take_payment-Added capacity output_limit count total payment amount payments rest group e room
      later =
    choose_cases P (amount == 0) _ _ (λ zero_amount h. absurd (ground (arith, h)))
      (λ spent.
        choose_cases P (ltb capacity amount && count == 0) _ _
          (λ large h. absurd (ground (arith, h)))
          (λ not_large.
            choose_cases P (ltb capacity (total + amount)) _ _
              (λ over h. stops_here (ok_injective h) (inl (ground (arith, over, e))))
              (λ under.
                choose_cases P
                  (ltb output_limit (output_count (count + 1) (total + amount) capacity)) _ _
                  (λ many h. stops_here (ok_injective h) (inr (ground (arith, many, e))))
                  (λ few h. pushed rest refl h spent under few))))
  where
    P : Result (List Value) → Type 0
    P r = r ≡ ok group → Added capacity output_limit count total (payment ∷ payments) group

    stops_here :
        [] ≡ group
        → NoneFits capacity output_limit count total (payment ∷ payments)
        → Added capacity output_limit count total (payment ∷ payments) group
    stops_here h none_fits =
        stop-Added capacity output_limit count total (payment ∷ payments) group h room none_fits

    pushed :
        (r : Result (List Value))
        → rest ≡ r
        → (r >>= λ later. ok (payment ∷ later)) ≡ ok group
        → (amount == 0) ≡ false
        → ltb capacity (total + amount) ≡ false
        → ltb output_limit (output_count (count + 1) (total + amount) capacity) ≡ false
        → Added capacity output_limit count total (payment ∷ payments) group
    pushed (throw message) er h spent under few = absurd (ground (arith, h))
    pushed (ok added) er h spent under few =
        subst (Added capacity output_limit count total (payment ∷ payments)) (ok_injective h) (
          push-Added capacity output_limit count total payment payments added
            (ground (arith, spent, e)) (ground (arith, few, e))
            (subst (λ n. Added capacity output_limit (count + 1) (total + n) payments added) (sym e)
              (later added (ground (arith, under)) er)))

pub plan-Added :
    (capacity output_limit count total : ℕ) (payments group : List Value)
    → total ≤ capacity
    → plan capacity output_limit count total payments ≡ ok group
    → Added capacity output_limit count total payments group
unfolding plan
plan-Added capacity output_limit count total [] group room h =
    stop-Added capacity output_limit count total [] group (ok_injective h) room tt
plan-Added capacity output_limit count total (payment ∷ payments) group room h =
    let (amount, e, taken) = >>=-eq-ok (payment_amount payment) _ h in
    take_payment-Added capacity output_limit count total payment amount payments _ group
      (amount_of_ok payment amount e) room
      (λ later fits planned.
        plan-Added capacity output_limit (count + 1) (total + amount) payments later fits planned)
      taken

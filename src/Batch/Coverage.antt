-- ===== src/Batch/Coverage.antt =====
-- What the notes of a preview cover.
use clairveil_samples.Batch.Preview.{preview_state, select_notes}
use clairveil_samples.Coordinator.Retention.{reached}
use clairveil_samples.Prelude.{
  Bool-cases, List, [], arith, if◌then◌else◌, inl, inr, leb, length, ltb, not, refl, subst, suc,
  sum, take, true, zero, ℕ, ◌&&◌, ◌+◌, ◌-◌, ◌<◌, ◌||◌, ◌↔◌, ◌∷◌, ◌≡◌, ◌≤◌, ◌⊎◌,
}

-- What the loop selects from `count` notes of `selected`: the first `more` notes, no more than needed.
record Selected (max_inputs total count selected : ℕ) (notes : List ℕ) (result : ℕ × ℕ)
    : Type 0 where
  more : ℕ
  counted : result.0 ≡ count + more
  summed : result.1 ≡ selected + sum (take more notes)
  within : more ≡ 0 ⊎ result.0 ≤ max_inputs
  needed : more ≡ 0 ⊎ selected + sum (take (more - 1) notes) < total
  enough : total ≤ result.1 ⊎ selected + sum (take (max_inputs - count) notes) ≤ result.1

stops :
    (max_inputs total count selected : ℕ) (notes : List ℕ)
    → (leb max_inputs count || leb total selected) ≡ true
    → Selected max_inputs total count selected notes (count, selected)
unfolding sum
stops max_inputs total count selected notes h = record {
  more = 0;
  counted = omega arith;
  summed = ground arith;
  within = inl refl;
  needed = inl refl;
  enough = elim (Bool-cases (leb total selected)) [
    | inl reached ↦ inl (ground (arith, reached))
    | inr short ↦ inr (rw (none_left (ground (arith, h, short))) (ground arith))
  ];
}
  where
    none_left : max_inputs ≤ count → max_inputs - count ≡ 0
    none_left h = omega (arith, h)

before_last :
    (amount m : ℕ) (notes : List ℕ) (total selected : ℕ)
    → selected < total
    → (m ≡ 0 ⊎ selected + amount + sum (take (m - 1) notes) < total)
    → selected + sum (take m (amount ∷ notes)) < total
unfolding sum
before_last amount zero notes total selected h last = ground (arith, h)
before_last amount (suc m) notes total selected h (inl e) = cc
before_last amount (suc m) notes total selected h (inr short) = ground (arith, short)

takes :
    (amount : ℕ) (notes : List ℕ) (max_inputs count : ℕ)
    → count < max_inputs
    → sum (take (max_inputs - count) (amount ∷ notes))
      ≡ amount + sum (take (max_inputs - (count + 1)) notes)
unfolding sum
takes amount notes max_inputs count h =
    let e : max_inputs - count ≡ suc (max_inputs - (count + 1)) = omega (arith, h) in rw e refl

select_notes-Selected :
    (max_inputs total count selected : ℕ) (notes : List ℕ)
    → Selected max_inputs total count selected notes
        (select_notes max_inputs total count selected notes)
unfolding select_notes sum
select_notes-Selected max_inputs total count selected [] = record {
  more = 0;
  counted = omega arith;
  summed = ground arith;
  within = inl refl;
  needed = inl refl;
  enough = inr (no_more (max_inputs - count));
}
  where
    no_more : (n : ℕ) → selected + sum (take n []) ≤ selected
    no_more zero = ground arith
    no_more (suc n) = ground arith
select_notes-Selected max_inputs total count selected (amount ∷ notes) =
    elim (Bool-cases (leb max_inputs count || leb total selected)) [
      | inl done ↦ rw done (stops max_inputs total count selected (amount ∷ notes) done)
      | inr goes_on ↦ rw goes_on (
          selects (ground (arith, goes_on)) (ground (arith, goes_on))
            (select_notes-Selected max_inputs total (count + 1) (selected + amount) notes))
    ]
  where
    selects :
        {result : ℕ × ℕ}
        → count < max_inputs
        → selected < total
        → Selected max_inputs total (count + 1) (selected + amount) notes result
        → Selected max_inputs total count selected (amount ∷ notes) result
    selects room short s =
        let one_less : s.more ≡ suc s.more - 1 = omega arith in
        record {
          more = suc s.more;
          counted = omega (arith, s.counted);
          summed = ground (arith, s.summed);
          within = inr (ground (arith, s.counted, s.within, room));
          needed = inr (
              subst (λ m. selected + sum (take m (amount ∷ notes)) < total) one_less
                (before_last amount s.more notes total selected short s.needed));
          enough = ground (arith, s.enough, takes amount notes max_inputs count room);
        }

sum-take-le : (n : ℕ) (notes : List ℕ) → sum (take n notes) ≤ sum notes
unfolding sum
sum-take-le zero notes = omega arith
sum-take-le (suc n) [] = omega arith
sum-take-le (suc n) (amount ∷ notes) = omega (arith, sum-take-le n notes)

take-le : (m n : ℕ) (notes : List ℕ) → m ≤ n → sum (take m notes) ≤ sum (take n notes)
unfolding sum
take-le zero n notes h = ground (arith, h)
take-le (suc m) zero notes h = ground (arith, h)
take-le (suc m) (suc n) [] h = omega arith
take-le (suc m) (suc n) (amount ∷ notes) h = ground (arith, take-le m n notes, h)

preview-Selected :
    (payments notes : List ℕ) (max_inputs max_outputs : ℕ)
    → Selected max_inputs (sum payments) 0 0 notes (
      (preview_state payments notes max_inputs max_outputs).selected_count,
      (preview_state payments notes max_inputs max_outputs).selected_total,
    )
unfolding preview_state
preview-Selected payments notes max_inputs max_outputs =
    select_notes-Selected max_inputs (sum payments) 0 0 notes

-- The preview selects a beginning of the notes, no longer than the input limit and no longer than the
-- total of the payments needs.
pub preview_selects :
    (payments notes : List ℕ) (max_inputs max_outputs : ℕ)
    → let p = preview_state payments notes max_inputs max_outputs in
      (p.selected_total ≡ sum (take p.selected_count notes))
      × (p.selected_count ≤ max_inputs)
      × (p.selected_count ≡ 0 ⊎ sum (take (p.selected_count - 1) notes) < sum payments)
preview_selects payments notes max_inputs max_outputs =
    let s = preview-Selected payments notes max_inputs max_outputs in
    let same : (preview_state payments notes max_inputs max_outputs).selected_count ≡ s.more =
      omega (arith, s.counted) in
    (
      rw same (omega (arith, s.summed)),
      ground (arith, s.within, s.counted),
      rw same (ground (arith, s.needed)),
    )

reaches :
    (payments notes : List ℕ) (max_inputs max_outputs : ℕ)
    → (sum payments ≤ (preview_state payments notes max_inputs max_outputs).selected_total)
      ↔ (sum payments ≤ sum (take max_inputs notes))
reaches payments notes max_inputs max_outputs =
    let s = preview-Selected payments notes max_inputs max_outputs in
    (
      λ h. omega (
        arith,
        h,
        s.summed,
        take-le s.more max_inputs notes (ground (arith, s.within, s.counted)),
      ),
      λ h. ground (arith, h, s.enough),
    )

-- A preview covers the payments without asking for a split exactly if their total is positive, the notes
-- of one batch reach it, and its outputs, with one for change unless the selected notes meet the total
-- exactly, are within the limit.
pub preview_in_one_batch_iff :
    (payments notes : List ℕ) (max_inputs max_outputs : ℕ)
    → let p = preview_state payments notes max_inputs max_outputs in
      ((p.total_covered && not p.requires_split) ≡ true) ↔ (
        (0 < sum payments)
        × (sum payments ≤ sum (take max_inputs notes))
        × (length payments + (if ltb (sum payments) p.selected_total then 1 else 0) ≤ max_outputs))
unfolding preview_state
preview_in_one_batch_iff payments notes max_inputs max_outputs =
    ground (arith, reaches payments notes max_inputs max_outputs, sum-take-le max_inputs notes)

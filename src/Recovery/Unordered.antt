-- ===== src/Recovery/Unordered.antt =====
-- The order of the operations and of their records, in public/reservation-recovery.js.
use clairveil_samples.Js.{Value, is_empty}
use clairveil_samples.Prelude.{
  Bool, List, String, [], ap, arith, every, has, map, not, refl, some_of, sym, true, ◌&&◌, ◌===◌,
  ◌||◌, ◌∙◌, ◌∷◌, ◌≡◌,
}
use clairveil_samples.Prelude.Sets.{has-append}
use clairveil_samples.Recovery.Groups.{
  Grouped, add_succeeded, insert_ordered, lookup_key_of, operation_succeeded, order_by,
  order_records, record_succeeded, reservation_id_of,
}
use clairveil_samples.Recovery.Records.{given}

some_of-insert_ordered {ℓ} :
    {A : Type ℓ} (p : A → Bool) (le : String → String → Bool) (text : A → String) (x : A)
    (xs : List A)
    → some_of p (insert_ordered le text x xs) ≡ (p x || some_of p xs)
unfolding insert_ordered
some_of-insert_ordered p le text x [] = refl
some_of-insert_ordered p le text x (y ∷ ys) = ground (arith, some_of-insert_ordered p le text x ys)

-- An order changes nothing about what occurs.
pub some_of-order_by {ℓ} :
    {A : Type ℓ} (p : A → Bool) (le : String → String → Bool) (text : A → String) (xs : List A)
    → some_of p (order_by le text xs) ≡ some_of p xs
unfolding order_by
some_of-order_by p le text [] = refl
some_of-order_by p le text (x ∷ xs) =
    some_of-insert_ordered p le text x (order_by le text xs)
    ∙ ap (λ (b : Bool). p x || b) (some_of-order_by p le text xs)

every_as_negation :
    (p : Value → Bool) (xs : List Value) → every p xs ≡ not (some_of (λ v. not (p v)) xs)
every_as_negation p [] = refl
every_as_negation p (x ∷ xs) = ground (arith, every_as_negation p xs)

operation_succeeded_lem :
    (vs : List Value)
    → operation_succeeded vs
      ≡ (some_of (λ v. true) vs && not (some_of (λ v. not (record_succeeded v)) vs))
operation_succeeded_lem [] = refl
operation_succeeded_lem (v ∷ vs) = every_as_negation record_succeeded (v ∷ vs)

operation_succeeded-order_by :
    (le : String → String → Bool) (text : Value → String) (vs : List Value)
    → operation_succeeded (order_by le text vs) ≡ operation_succeeded vs
operation_succeeded-order_by le text vs = ground (
  arith,
  operation_succeeded_lem vs,
  operation_succeeded_lem (order_by le text vs),
  some_of-order_by (λ (v : Value). true) le text vs,
  some_of-order_by (λ (v : Value). not (record_succeeded v)) le text vs,
)

-- A record with this key for its note.
abbrev pub notes : String → List Value → Bool
notes k vs = has k (given (map lookup_key_of vs))

notes_lem :
    (k : String) (vs : List Value)
    → notes k vs ≡ some_of (λ v. not (is_empty (lookup_key_of v)) && lookup_key_of v === k) vs
notes_lem k [] = refl
notes_lem k (v ∷ vs) = ground (arith, notes_lem k vs)

notes-order_by :
    (k : String) (le : String → String → Bool) (text : Value → String) (vs : List Value)
    → notes k (order_by le text vs) ≡ notes k vs
notes-order_by k le text vs =
    notes_lem k (order_by le text vs)
    ∙ some_of-order_by (λ (v : Value). not (is_empty (lookup_key_of v)) && lookup_key_of v === k) le
        text vs
    ∙ sym (notes_lem k vs)

abbrev pub adds : String → String × List Value → Bool
adds k (key, records) = operation_succeeded records && notes k records

pub has-add_succeeded : (k : String) (gs : Grouped) → has k (add_succeeded gs) ≡ some_of (adds k) gs
unfolding add_succeeded
has-add_succeeded k [] = refl
has-add_succeeded k ((key, records) ∷ gs) = ground (
  arith,
  has-add_succeeded k gs,
  has-append k (given (map lookup_key_of records)) (add_succeeded gs),
)

pub adds-order_records :
    (k : String) (le : String → String → Bool) (gs : Grouped)
    → some_of (adds k) (map (order_records le) gs) ≡ some_of (adds k) gs
adds-order_records k le [] = refl
adds-order_records k le ((key, records) ∷ gs) = ground (
  arith,
  adds-order_records k le gs,
  operation_succeeded-order_by le reservation_id_of records,
  notes-order_by k le reservation_id_of records,
)

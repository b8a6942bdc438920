-- ===== src/Recovery/Grouping.antt =====
-- The map of operations that public/reservation-recovery.js builds from its records.
use clairveil_samples.Js.{Value, insert, is_empty, lookup, lookup-insert, truthy}
use clairveil_samples.Prelude.{
  Bool, Bool-cases, List, String, [], arith, eq_iff, false, if◌then◌else◌, inl, inr, keep, none,
  not, refl, some, subst, sym, true, ◌&&◌, ◌++◌, ◌===◌, ◌||◌, ◌∙◌, ◌∷◌, ◌≡◌,
}
use clairveil_samples.Recovery.Groups.{Grouped, group_by_key, records_or_none}
use clairveil_samples.Recovery.Records.{reservation_operation_key}
use mathlib.Core.List.{append-nil, append_assoc}

-- The keys of a map are not empty, and each stands there once.
abbrev pub IsMap : Grouped → Type 0
IsMap [] = Unit
IsMap ((key, records) ∷ gs) = (is_empty key ≡ false) × (lookup key gs ≡ none) × IsMap gs

insert-IsMap :
    (key : String) (new : List Value) (gs : Grouped)
    → is_empty key ≡ false
    → IsMap gs
    → IsMap (insert key new gs)
unfolding insert lookup
insert-IsMap key new [] h m = (h, refl, tt)
insert-IsMap key new ((other, records) ∷ gs) h (g, absent, m) = elim (Bool-cases (other === key)) [
  | inl e ↦ rw e (h, subst (λ k. lookup k gs ≡ none) ((eq_iff other key).0 e) absent, m)
  | inr e ↦ rw e (
    g,
    ground (arith, e, lookup-insert key other new gs, absent, eq_iff key other, eq_iff other key),
    insert-IsMap key new gs h m,
  )
]

pub group_by_key-IsMap : (vs : List Value) (gs : Grouped) → IsMap gs → IsMap (group_by_key vs gs)
unfolding group_by_key
group_by_key-IsMap [] gs m = m
group_by_key-IsMap (v ∷ vs) gs m =
    let key = reservation_operation_key v in
    elim (Bool-cases (not (truthy v) || is_empty key)) [
      | inl left_out ↦ rw left_out (group_by_key-IsMap vs gs m)
      | inr joins ↦
          rw joins (group_by_key-IsMap vs _ (insert-IsMap key _ gs (ground (arith, joins)) m))
    ]

-- The records of an operation.
abbrev pub records_of : String → List Value → List Value
records_of key vs = keep (λ v. truthy v && reservation_operation_key v === key) vs

not_joined :
    (present : Bool) (own key : String)
    → (not present || is_empty own) ≡ true
    → is_empty key ≡ false
    → (present && own === key) ≡ false
not_joined present own key h k = elim (Bool-cases (own === key)) [
  | inl e ↦
      let same : is_empty own ≡ false =
        subst (λ s. is_empty s ≡ false) (sym ((eq_iff own key).0 e)) k in
      ground (arith, e, same, h)
  | inr e ↦ ground (arith, e)
]

joined_case :
    (present : Bool) (own key : String) (rest : List Value)
    → (not present || is_empty own) ≡ false
    → (gs : Grouped) (v : Value)
    → records_or_none
          (if own === key then some (records_or_none (lookup own gs) ++ v ∷ []) else lookup key gs)
        ++ rest
      ≡ records_or_none (lookup key gs) ++ (if present && own === key then v ∷ rest else rest)
joined_case present own key rest h gs v = elim (Bool-cases (own === key)) [
  | inl e ↦ rw e (
      rw (present_lem present own h) (
        subst
          (λ k.
            (records_or_none (lookup own gs) ++ v ∷ []) ++ rest
            ≡ records_or_none (lookup k gs) ++ (v ∷ rest))
          ((eq_iff own key).0 e) (append_assoc (records_or_none (lookup own gs)) (v ∷ []) rest)))
  | inr e ↦ rw e (rw (and-false present) refl)
]
  where
    present_lem : (b : Bool) (s : String) → (not b || is_empty s) ≡ false → b ≡ true
    present_lem b s h = ground (arith, h)

    and-false : (b : Bool) → (b && false) ≡ false
    and-false b = ground arith

pub lookup-group_by_key :
    (key : String) (vs : List Value) (gs : Grouped)
    → is_empty key ≡ false
    → records_or_none (lookup key (group_by_key vs gs))
      ≡ records_or_none (lookup key gs) ++ records_of key vs
unfolding group_by_key
lookup-group_by_key key [] gs h = sym (append-nil (records_or_none (lookup key gs)))
lookup-group_by_key key (v ∷ vs) gs h =
    let own = reservation_operation_key v in
    elim (Bool-cases (not (truthy v) || is_empty own)) [
      | inl left_out ↦
          rw left_out
            (rw (not_joined (truthy v) own key left_out h) (lookup-group_by_key key vs gs h))
      | inr joins ↦ rw joins (
          lookup-group_by_key key vs (insert own (records_or_none (lookup own gs) ++ v ∷ []) gs) h
          ∙ rw (lookup-insert own key (records_or_none (lookup own gs) ++ v ∷ []) gs)
              (joined_case (truthy v) own key (records_of key vs) joins gs v))
    ]

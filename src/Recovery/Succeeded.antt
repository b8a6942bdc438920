-- ===== src/Recovery/Succeeded.antt =====
-- Which note keys belong to operations that succeeded: public/reservation-recovery.js.
use clairveil_samples.Js.{Value, is_empty, lookup}
use clairveil_samples.Prelude.{
  Bool, Bool-cases, List, Option-cases, String, [], and-eq-true, ap, arith, eq_iff, eq_refl, false,
  has, inl, inr, map, refl, some, some_of, subst, sym, true, unique, ◌++◌, ◌===◌, ◌||◌, ◌↔◌, ◌∙◌,
  ◌∷◌, ◌≡◌, ◌≢◌,
}
use clairveil_samples.Prelude.Sets.{has-unique}
use clairveil_samples.Recovery.Grouping.{IsMap, group_by_key-IsMap, lookup-group_by_key, records_of}
use clairveil_samples.Recovery.Groups.{
  Grouped, add_succeeded, created_at, group_by_key, group_reservation_operations,
  operation_succeeded, order_records, records_or_none, succeeded_operation_lookup_keys,
}
use clairveil_samples.Recovery.Unordered.{
  adds, adds-order_records, has-add_succeeded, notes, some_of-order_by,
}

-- An operation of the map that adds the key, and its name.
found_entry :
    (p : String × List Value → Bool) (gs : Grouped)
    → IsMap gs
    → some_of p gs ≡ true
    → (key : String) × (records : List Value) × (is_empty key ≡ false)
      × (lookup key gs ≡ some records)
      × (p (key, records) ≡ true)
unfolding lookup
found_entry p [] m h = cc
found_entry p ((key, records) ∷ gs) (g, absent, m) h = elim (Bool-cases (p (key, records))) [
  | inl e ↦ (key, records, g, rw (eq_refl key) refl, e)
  | inr e ↦
      let (k, rs, g', l, q) = found_entry p gs m (ground (arith, e, h)) in
      (k, rs, g', ground (arith, l, absent, eq_iff key k), q)
]

same_entry :
    {k j : String} {xs ys : List Value}
    → k ≡ j
    → some xs ≡ some ys
    → ◌≡◌ {A = String × List Value} (k, xs) (j, ys)
same_entry e h = cc

or_left : (a b : Bool) → a ≡ true → (a || b) ≡ true
or_left a b h = ground (arith, h)

entry_found :
    (p : String × List Value → Bool) (key : String) (records : List Value) (gs : Grouped)
    → lookup key gs ≡ some records
    → p (key, records) ≡ true
    → some_of p gs ≡ true
unfolding lookup
entry_found p key records [] l h = cc
entry_found p key records ((other, rs) ∷ gs) l h = elim (Bool-cases (other === key)) [
  | inl e ↦ or_left _ _ (ap p (same_entry ((eq_iff other key).0 e) (rw e at l)) ∙ h)
  | inr e ↦ ground (arith, entry_found p key records gs (rw e at l) h)
]

no_success : operation_succeeded [] ≢ true
no_success h = cc

-- The key of a note is among those of the operations that succeeded exactly if there is an operation,
-- with a name, whose records all say that it succeeded, and a record of it has that key; the order of
-- the records and of the operations changes nothing.
pub succeeded_keys_iff :
    (k : String) (at_most : String → String → Bool) (records : List Value)
    → (has k (succeeded_operation_lookup_keys at_most records) ≡ true) ↔ (
        (key : String) × (is_empty key ≡ false)
        × (operation_succeeded (records_of key records) ≡ true)
        × (notes k (records_of key records) ≡ true))
unfolding succeeded_operation_lookup_keys group_reservation_operations
succeeded_keys_iff k at_most records = (
  λ h.
      let (key, rs, named_, l, q) =
        found_entry (adds k) (group_by_key records []) (group_by_key-IsMap records [] tt)
          (sym unordered ∙ h) in
      let same : rs ≡ records_of key records =
        ap records_or_none (sym l) ∙ grouped_records key named_ in
      let (s, n) = and-eq-true _ _ q in
      (
        key,
        named_,
        subst (λ x. operation_succeeded x ≡ true) same s,
        subst (λ x. notes k x ≡ true) same n,
      ),
  λ (key, named_, s, n). unordered ∙ given_back key named_ s n,
)
  where
    unordered :
        has k (unique (add_succeeded (group_reservation_operations at_most records)))
        ≡ some_of (adds k) (group_by_key records [])
    unordered =
        has-unique k (add_succeeded (group_reservation_operations at_most records))
        ∙ has-add_succeeded k (group_reservation_operations at_most records)
        ∙ some_of-order_by (adds k) at_most created_at
            (map (order_records at_most) (group_by_key records []))
        ∙ adds-order_records k at_most (group_by_key records [])

    none_first : (key : String) (xs : List Value) → records_or_none (lookup key []) ++ xs ≡ xs
    none_first key xs = unfold lookup in refl

    nothing : {xs : List Value} {P : Type 0} → [] ≡ xs → operation_succeeded xs ≡ true → P
    nothing e h = absurd (no_success (subst (λ x. operation_succeeded x ≡ true) (sym e) h))

    grouped_records :
        (key : String)
        → is_empty key ≡ false
        → records_or_none (lookup key (group_by_key records [])) ≡ records_of key records
    grouped_records key h =
        lookup-group_by_key key records [] h ∙ none_first key (records_of key records)

    given_back :
        (key : String)
        → is_empty key ≡ false
        → operation_succeeded (records_of key records) ≡ true
        → notes k (records_of key records) ≡ true
        → some_of (adds k) (group_by_key records []) ≡ true
    given_back key h s n = elim (Option-cases (lookup key (group_by_key records []))) [
      | inl e ↦ nothing (ap records_or_none (sym e) ∙ grouped_records key h) s
      | inr (rs, e) ↦
          let same : rs ≡ records_of key records =
            ap records_or_none (sym e) ∙ grouped_records key h in
          entry_found (adds k) key rs (group_by_key records []) e (
            ground (
              arith,
              subst (λ x. operation_succeeded x ≡ true) (sym same) s,
              subst (λ x. notes k x ≡ true) (sym same) n,
            ))
    ]

-- ===== src/Batch/Identities.antt =====
-- The identities of the requested and of the prepared payments.
use clairveil_samples.Batch.Prepared.{
  check_payment, check_prepared, known, prepared_id, read_requested, requested_amount, requested_id,
  requested_left,
}
use clairveil_samples.Js.{Value, insert, lookup, lookup-insert, lookup-remove, remove}
use clairveil_samples.Prelude.{
  >>=-eq-ok, AllDistinct, List, Option, String, [], arith, choose_cases, eq_iff, false, has, map,
  none, not, ok, ok_injective, refl, some, subst, throw, true, ℕ, ◌+◌, ◌||◌, ◌∷◌, ◌≡◌,
}

-- What the amounts of the requested payments come to.
pub requested_total : List Value → ℕ
requested_total [] = 0
requested_total (payment ∷ payments) =
    elim (requested_amount payment) [ ok n ↦ n | throw e ↦ 0 ] + requested_total payments

-- What the loop over the requested payments gives.
pub record Read (requested : List Value) (before : List (String × (Value × ℕ))) (start : ℕ)
    (result : List (String × (Value × ℕ)) × ℕ) : Type 0 where
  pub totals : result.1 ≡ start + requested_total requested
  pub ids :
      (k : String)
      → known (lookup k (result.0))
        ≡ (known (lookup k before) || has k (map requested_id requested))
  pub fresh : AllDistinct (map requested_id requested)
  pub unused :
      (k : String) → has k (map requested_id requested) ≡ true → known (lookup k before) ≡ false

pub read_requested-Read :
    (requested : List Value) (before : List (String × (Value × ℕ))) (start : ℕ)
    {result : List (String × (Value × ℕ)) × ℕ}
    → read_requested requested before start ≡ ok result
    → Read requested before start result
unfolding read_requested requested_total
read_requested-Read [] before start {result} h =
    subst (Read [] before start) (ok_injective h) (record {
      totals = omega arith;
      ids = λ k. ground arith;
      fresh = tt;
      unused = λ k e. ground (arith, e);
    })
read_requested-Read (payment ∷ requested) before start {result} h =
    let (amount, read, h₁) = >>=-eq-ok (requested_amount payment) _ h in
    choose_cases (λ r. r ≡ ok result → Read (payment ∷ requested) before start result) _ _ _
      (λ bad e. absurd (ground (arith, e)))
      (λ good e. more amount read (ground (arith, good)) (
        read_requested-Read requested (insert (requested_id payment) (payment, amount) before)
          (start + amount) e))
      h₁
  where
    more :
        (amount : ℕ)
        → requested_amount payment ≡ ok amount
        → known (lookup (requested_id payment) before) ≡ false
        → Read requested
            (insert (requested_id payment) (payment, amount) before)
            (start + amount)
            result
        → Read (payment ∷ requested) before start result
    more amount read free r =
        let id = requested_id payment in
        record {
          totals = ground (arith, r.totals, read);
          ids = λ k.
              ground (arith, r.ids k, lookup-insert id k (payment, amount) before, eq_iff id k);
          fresh = (
            ground (arith, r.unused id, lookup-insert id id (payment, amount) before, eq_iff id id),
            r.fresh,
          );
          unused = λ k e. ground (
            arith,
            e,
            free,
            r.unused k,
            lookup-insert id k (payment, amount) before,
            eq_iff id k,
          );
        }

-- The identities of the prepared payments are those of the requests that they were checked against.
check_payment_known :
    (atob : String → Option String) (denom : String) (prepared payment : Value)
    (entry : Option (Value × ℕ))
    → check_payment atob denom prepared payment entry ≡ ok tt
    → known entry ≡ true
unfolding check_payment
check_payment_known atob denom prepared payment none h = cc
check_payment_known atob denom prepared payment (some entry) h = refl

pub check_prepared_ids :
    (atob : String → Option String) (denom : String) (prepared : Value) (payments : List Value)
    (by_id left : List (String × (Value × ℕ)))
    → check_prepared atob denom prepared payments by_id ≡ ok left
    → (k : String)
    → known (lookup k by_id) ≡ (has k (map prepared_id payments) || known (lookup k left))
unfolding check_prepared
check_prepared_ids atob denom prepared [] by_id left h k =
    subst (λ l. known (lookup k by_id) ≡ known (lookup k l)) (ok_injective h) refl
check_prepared_ids atob denom prepared (payment ∷ payments) by_id left h k =
    let (checked, e, h₁) =
      >>=-eq-ok (check_payment atob denom prepared payment (lookup (prepared_id payment) by_id)) _
        h in
    let here =
      check_payment_known atob denom prepared payment (lookup (prepared_id payment) by_id) e in
    let rest =
      check_prepared_ids atob denom prepared payments (remove (prepared_id payment) by_id) left h₁
        k in
    ground (
      arith,
      here,
      rest,
      lookup-remove (prepared_id payment) k by_id,
      eq_iff (prepared_id payment) k,
    )

pub nothing_left :
    (left : List (String × (Value × ℕ))) → not (requested_left left) ≡ true → left ≡ []
nothing_left [] h = refl
nothing_left (entry ∷ left) h = cc

-- ===== src/Coordinator/Repeat.antt =====
-- A request that is repeated.
use clairveil_samples.Coordinator.Invariant.{occupied-eq-nil}
use clairveil_samples.Coordinator.Locks.{holders-eq-nil, lookup-set_locks}
use clairveil_samples.Coordinator.Run.{
  admit, attempt, holders, join, joined, occupied, run_many, same_keys, start_entry, started,
  unique_ids,
}
use clairveil_samples.Coordinator.State.{
  Coordinator, new_entry, normalize_key, normalized_lock_set, trim_completed, without_id,
}
use clairveil_samples.Js.{Value, is_empty, lookup}
use clairveil_samples.Prelude.{
  Bool, Bool-cases, List, String, [], arith, eq_iff, every, false, has, inl, inr, leb, length, none,
  ok, refl, some, true, ℕ, ◌==◌, ◌||◌, ◌∙◌, ◌∷◌, ◌≡◌,
}

-- A request that started an attempt was complete and its keys were free.
pub record Started (keys : List String) (key : String) (id : ℕ) (c d : Coordinator) : Type 0 where
  free : holders keys c.attempts ≡ []
  next : id ≡ (trim_completed c.entries c).next
  result : d ≡ start_entry keys key (trim_completed c.entries c)

admit-Started :
    (keys : List String) (key : String) (id : ℕ) (c : Coordinator)
    → holders keys c.attempts ≡ []
    → (admit keys key c).1 ≡ ok (started id)
    → Started keys key id c (admit keys key c).0
unfolding admit
admit-Started keys key id c free h =
    let trimmed = trim_completed c.entries c in
    elim (Bool-cases (leb trimmed.limit (length trimmed.entries))) [
      | inl full ↦ absurd (ground (arith, full, h))
      | inr room ↦ record {
        free = free;
        next = ground (arith, room, h);
        result = ground (arith, room);
      }
    ]

join_not_started :
    (keys : List String) (key : String) (c : Coordinator) (ids : List ℕ) (id : ℕ)
    → ¬ (join keys key c ids ≡ ok (started id))
unfolding join
join_not_started keys key c [] id h = cc
join_not_started keys key c (i ∷ []) id h = ground (arith, h)
join_not_started keys key c (i ∷ j ∷ ids) id h = cc

attempt-Started :
    (keys : List String) (key : String) (id : ℕ) (c : Coordinator) (ids : List ℕ)
    → occupied keys c.attempts ≡ ids
    → (attempt keys key c ids).1 ≡ ok (started id)
    → Started keys key id c (attempt keys key c ids).0
unfolding attempt
attempt-Started keys key id c [] e h = admit-Started keys key id c (occupied-eq-nil _ e) h
attempt-Started keys key id c (i ∷ ids) e h = absurd (join_not_started keys key c (i ∷ ids) id h)

pub run_many-Started :
    (lock_keys key : Value) (callback : Bool) (c : Coordinator) (id : ℕ)
    → (run_many lock_keys key callback c).1 ≡ ok (started id)
    → (callback ≡ true)
      × ((length (normalized_lock_set lock_keys) == 0 || is_empty (normalize_key key)) ≡ false)
      × Started
          (normalized_lock_set lock_keys)
          (normalize_key key)
          id
          c
          (run_many lock_keys key callback c).0
unfolding run_many
run_many-Started lock_keys key callback c id h =
    let keys = normalized_lock_set lock_keys in
    let k = normalize_key key in
    elim (Bool-cases (length keys == 0 || is_empty k)) [
      | inl missing ↦ absurd (ground (arith, missing, h))
      | inr given ↦ elim (Bool-cases callback) [
        | inr refused ↦ absurd (ground (arith, given, refused, h))
        | inl callable ↦ (
          callable,
          given,
          rw (given, callable)
              (attempt-Started keys k id c (occupied keys c.attempts) refl
                (rw (given, callable) at h)),
        )
      ]
    ]

same_keys_refl : (keys : List String) → same_keys keys keys ≡ true
same_keys_refl [] = refl
same_keys_refl (key ∷ keys) = ground (arith, eq_iff key key, same_keys_refl keys)

-- Keys that one entry holds are occupied by it alone.
without_all :
    (id : ℕ) (ids : List ℕ) → every (λ (j : ℕ). j == id) ids ≡ true → without_id id ids ≡ []
without_all id [] h = refl
without_all id (j ∷ ids) h = ground (arith, h, without_all id ids)

without_twice :
    (id j : ℕ) (ids : List ℕ) → without_id id ids ≡ [] → without_id id (without_id j ids) ≡ []
without_twice id j [] h = refl
without_twice id j (i ∷ ids) h = ground (arith, h, without_twice id j ids)

every-unique_ids :
    (id : ℕ) (ids : List ℕ)
    → every (λ (j : ℕ). j == id) ids ≡ true
    → without_id id (unique_ids ids) ≡ []
every-unique_ids id [] h = refl
every-unique_ids id (j ∷ ids) h =
    ground (arith, h, every-unique_ids id ids, without_twice id j (unique_ids ids))

holders_all :
    (id : ℕ) (keys : List String) (attempts : List (String × ℕ))
    → ((k : String) → has k keys ≡ true → lookup k attempts ≡ some id)
    → (every (λ (j : ℕ). j == id) (holders keys attempts) ≡ true)
      × (length (holders keys attempts) ≡ length keys)
unfolding holders
holders_all id [] attempts h = (refl, refl)
holders_all id (key ∷ keys) attempts h =
    let here = h key (ground (arith, eq_iff key key)) in
    let rest = holders_all id keys attempts (λ k l. h k (ground (arith, l))) in
    (ground (arith, here, rest.0), ground (arith, here, rest.1))

occupied_alone :
    (id : ℕ) (ids : List ℕ)
    → every (λ (j : ℕ). j == id) ids ≡ true
    → (length ids == 0) ≡ false
    → unique_ids ids ≡ id ∷ []
occupied_alone id [] all some_id = absurd (ground (arith, some_id))
occupied_alone id (j ∷ ids) all some_id =
    let e : j ≡ id = ground (arith, all) in
    let rest : every (λ (j : ℕ). j == id) ids ≡ true = ground (arith, all) in
    rw (e, every-unique_ids id ids rest) refl

-- What a started attempt holds.
pub lookup-Started :
    (keys : List String) (key : String) (id : ℕ) (c d : Coordinator)
    → Started keys key id c d
    → (k : String) → has k keys ≡ true
    → lookup k d.attempts ≡ some id
unfolding start_entry
lookup-Started keys key id c d s k h =
    rw (s.result, s.next)
      (ground (
        arith,
        h,
        lookup-set_locks k keys (trim_completed c.entries c).next
            (trim_completed c.entries c).attempts,
      ))

store-Started :
    (keys : List String) (key : String) (id : ℕ) (c d : Coordinator)
    → Started keys key id c d
    → (d.store id).idempotency_key ≡ key × (d.store id).lock_keys ≡ keys
unfolding start_entry new_entry
store-Started keys key id c d s =
    (rw (s.result, s.next) (ground arith), rw (s.result, s.next) (ground arith))

joins :
    (keys : List String) (key : String) (id : ℕ) (c d : Coordinator)
    → Started keys key id c d
    → join keys key d (id ∷ []) ≡ ok (joined id)
unfolding join
joins keys key id c d s =
    let entry = store-Started keys key id c d s in
    ground (arith, entry.0, entry.1, eq_iff key key, same_keys_refl keys)

attempt_again :
    (keys : List String) (key : String) (id : ℕ) (c d : Coordinator)
    → Started keys key id c d
    → (length keys == 0) ≡ false
    → attempt keys key d (occupied keys d.attempts) ≡ (d, ok (joined id))
unfolding attempt
attempt_again keys key id c d s given =
    let held = holders_all id keys d.attempts (lookup-Started keys key id c d s) in
    let alone =
      occupied_alone id (holders keys d.attempts) (held.0) (ground (arith, held.1, given)) in
    rw (alone, joins keys key id c d s) refl

run_many_attempts :
    (lock_keys key : Value) (callback : Bool) (d : Coordinator)
    → callback ≡ true
    → (length (normalized_lock_set lock_keys) == 0 || is_empty (normalize_key key)) ≡ false
    → run_many lock_keys key callback d
      ≡ attempt
          (normalized_lock_set lock_keys)
          (normalize_key key)
          d
          (occupied (normalized_lock_set lock_keys) d.attempts)
unfolding run_many
run_many_attempts lock_keys key callback d callable given = rw (given, callable) refl

-- A request that started an attempt took each of its keys: nobody held the key before, and the attempt
-- holds it after.
pub run_many_takes :
    (lock_keys key : Value) (callback : Bool) (c : Coordinator) (id : ℕ) (lock : String)
    → (run_many lock_keys key callback c).1 ≡ ok (started id)
    → has lock (normalized_lock_set lock_keys) ≡ true
    → (lookup lock c.attempts ≡ none)
      × (lookup lock (run_many lock_keys key callback c).0.attempts ≡ some id)
run_many_takes lock_keys key callback c id lock h l =
    let keys = normalized_lock_set lock_keys in
    let (callable, given, s) = run_many-Started lock_keys key callback c id h in
    (
      holders-eq-nil lock keys c.attempts s.free l,
      lookup-Started keys (normalize_key key) id c (run_many lock_keys key callback c).0 s lock l,
    )

-- The request that started an attempt, made again, joins the attempt and changes nothing.
pub run_many_again :
    (lock_keys key : Value) (callback : Bool) (c : Coordinator) (id : ℕ)
    → (run_many lock_keys key callback c).1 ≡ ok (started id)
    → run_many lock_keys key callback (run_many lock_keys key callback c).0
      ≡ ((run_many lock_keys key callback c).0, ok (joined id))
run_many_again lock_keys key callback c id h =
    let d = (run_many lock_keys key callback c).0 in
    let (callable, given, s) = run_many-Started lock_keys key callback c id h in
    run_many_attempts lock_keys key callback d callable given
    ∙ attempt_again (normalized_lock_set lock_keys) (normalize_key key) id c d s
        (ground (arith, given))

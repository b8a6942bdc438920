-- ===== src/Coordinator/Locks.antt =====
-- What the locks and the entries are after each change.
use clairveil_samples.Coordinator.Run.{holders, set_locks}
use clairveil_samples.Coordinator.State.{delete_lock, delete_locks, has_id, without_id}
use clairveil_samples.Js.{insert, lookup, lookup-insert, lookup-remove}
use clairveil_samples.Prelude.{
  Bool, List, Option, Option-cases, String, [], arith, eq_iff, false, has, if◌then◌else◌, inl, inr,
  none, not, refl, some, true, ℕ, ◌&&◌, ◌++◌, ◌===◌, ◌==◌, ◌||◌, ◌∷◌, ◌≡◌,
}

abbrev pub held_by : Option ℕ → ℕ → Bool
held_by none id = false
held_by (some holder) id = holder == id

lookup-delete_lock :
    (k key : String) (id : ℕ) (attempts : List (String × ℕ))
    → lookup k (delete_lock key id attempts)
      ≡ (if key === k && held_by (lookup k attempts) id then none else lookup k attempts)
unfolding delete_lock
lookup-delete_lock k key id attempts = elim (Option-cases (lookup key attempts)) [
  | inl free ↦ ground (arith, free, eq_iff key k)
  | inr (holder, is_held) ↦ ground (arith, is_held, eq_iff key k, lookup-remove key k attempts)
]

pub lookup-delete_locks :
    (k : String) (keys : List String) (id : ℕ) (attempts : List (String × ℕ))
    → lookup k (delete_locks keys id attempts)
      ≡ (if has k keys && held_by (lookup k attempts) id then none else lookup k attempts)
unfolding delete_locks
lookup-delete_locks k [] id attempts = refl
lookup-delete_locks k (key ∷ keys) id attempts = ground (
  arith,
  lookup-delete_locks k keys id (delete_lock key id attempts),
  lookup-delete_lock k key id attempts,
)

pub lookup-set_locks :
    (k : String) (keys : List String) (id : ℕ) (attempts : List (String × ℕ))
    → lookup k (set_locks keys id attempts) ≡ (if has k keys then some id else lookup k attempts)
lookup-set_locks k [] id attempts = refl
lookup-set_locks k (key ∷ keys) id attempts =
    ground
      (arith, lookup-set_locks k keys id (insert key id attempts), lookup-insert key k id attempts)

pub has_id-without_id :
    (j id : ℕ) (ids : List ℕ) → has_id j (without_id id ids) ≡ (has_id j ids && not (j == id))
has_id-without_id j id [] = refl
has_id-without_id j id (i ∷ ids) = ground (arith, has_id-without_id j id ids)

pub has_id-append :
    (j id : ℕ) (ids : List ℕ) → has_id j (ids ++ id ∷ []) ≡ (has_id j ids || id == j)
has_id-append j id [] = ground arith
has_id-append j id (i ∷ ids) = ground (arith, has_id-append j id ids)

-- The keys that nobody holds.
pub holders-eq-nil :
    (k : String) (keys : List String) (attempts : List (String × ℕ))
    → holders keys attempts ≡ []
    → has k keys ≡ true
    → lookup k attempts ≡ none
unfolding holders
holders-eq-nil k [] attempts e h = cc
holders-eq-nil k (key ∷ keys) attempts e h = elim (Option-cases (lookup key attempts)) [
  | inl free ↦ ground (arith, free, holders-eq-nil k keys attempts, eq_iff key k)
  | inr (id, is_held) ↦ ground (arith, is_held)
]

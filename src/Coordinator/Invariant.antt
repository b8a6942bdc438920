-- ===== src/Coordinator/Invariant.antt =====
-- The locks and the entries agree, whatever happens.
use clairveil_samples.Coordinator.Effect.{
  Effect, changes, changes_twice, releases, request_cases, step-Effect, unchanged,
}
use clairveil_samples.Coordinator.Locks.{
  has_id-append, has_id-without_id, holders-eq-nil, lookup-delete_locks, lookup-set_locks,
}
use clairveil_samples.Coordinator.Run.{
  admit, attempt, holders, occupied, run_many, start_entry, unique_ids,
}
use clairveil_samples.Coordinator.State.{
  Coordinator, Entry, change, create_relay_submission_coordinator, delete_entry, has_id,
  is_evictable, new_entry, normalize_key, normalized_lock_set, trim_completed,
}
use clairveil_samples.Coordinator.Step.{Event, step, steps}
use clairveil_samples.Js.{Value, is_empty, lookup}
use clairveil_samples.Prelude.{
  Bool, Bool-cases, List, Option, String, [], arith, false, has, inl, inr, leb, length,
  length-append, length-keep-le, ltb, none, not, refl, some, subst, sym, true, ℕ, ◌<◌, ◌==◌, ◌||◌,
  ◌∷◌, ◌≡◌, ◌≤◌,
}

-- Every lock is held by an entry of the set that lists it, every entry of the set holds all of its
-- locks, entries have numbers that were some_keys out, and there are no more than the limit.
pub record Inv (c : Coordinator) : Type 0 where
  pub held :
      (k : String) (id : ℕ)
      → lookup k c.attempts ≡ some id
      → (has_id id c.entries ≡ true) × (has k (c.store id).lock_keys ≡ true)
  pub holds :
      (id : ℕ) (k : String)
      → has_id id c.entries ≡ true
      → has k (c.store id).lock_keys ≡ true
      → lookup k c.attempts ≡ some id
  pub below : (id : ℕ) → has_id id c.entries ≡ true → id < c.next
  pub room : length c.entries ≤ c.limit

pub change-Inv :
    (id : ℕ) (f : Entry → Entry) (c : Coordinator)
    → (f (c.store id)).lock_keys ≡ (c.store id).lock_keys
    → Inv c
    → Inv (change id f c)
change-Inv id f c same v = record {
  held = λ k j h. ground (arith, v.held k j h, same);
  holds = λ j k h l. ground (arith, v.holds j k h, same);
  below = v.below;
  room = v.room;
}

pub delete_entry-Inv : (id : ℕ) (c : Coordinator) → Inv c → Inv (delete_entry id c)
unfolding delete_entry
delete_entry-Inv id c v = record {
  held = λ k j h. ground (
    arith,
    lookup-delete_locks k (c.store id).lock_keys id c.attempts,
    v.held k j,
    has_id-without_id j id c.entries,
  );
  holds = λ j k h l. ground (
    arith,
    lookup-delete_locks k (c.store id).lock_keys id c.attempts,
    v.holds j k,
    has_id-without_id j id c.entries,
  );
  below = λ j h. ground (arith, v.below j, has_id-without_id j id c.entries);
  room = omega (arith, v.room, length-keep-le (λ (j : ℕ). not (j == id)) c.entries);
}

-- What forgetting an evictable entry keeps, trimming keeps.
pub trim_completed_keeps {ℓ} :
    (P : Coordinator → Type ℓ)
    → ((id : ℕ) (c : Coordinator) → is_evictable (c.store id) ≡ true → P c → P (delete_entry id c))
    → (ids : List ℕ) (c : Coordinator) → P c
    → P (trim_completed ids c)
unfolding trim_completed
trim_completed_keeps P forget [] c p = p
trim_completed_keeps P forget (id ∷ ids) c p = elim (Bool-cases (ltb (length c.entries) c.limit)) [
  | inl enough ↦ rw enough p
  | inr full ↦ elim (Bool-cases (is_evictable (c.store id))) [
    | inl old ↦
        rw (full, old) (trim_completed_keeps P forget ids (delete_entry id c) (forget id c old p))
    | inr live ↦ rw (full, live) (trim_completed_keeps P forget ids c p)
  ]
]

-- Keys that nobody holds stay so when an entry is forgotten.
pub delete_entry-free :
    (k : String) (id : ℕ) (c : Coordinator)
    → lookup k c.attempts ≡ none
    → lookup k (delete_entry id c).attempts ≡ none
unfolding delete_entry
delete_entry-free k id c h =
    ground (arith, lookup-delete_locks k (c.store id).lock_keys id c.attempts)

start_entry-Inv :
    (keys : List String) (key : String) (c : Coordinator)
    → Inv c
    → ((k : String) → has k keys ≡ true → lookup k c.attempts ≡ none)
    → length c.entries < c.limit
    → Inv (start_entry keys key c)
unfolding start_entry new_entry
start_entry-Inv keys key c v free room = record {
  held = λ k id h. ground (
    arith,
    lookup-set_locks k keys c.next c.attempts,
    has_id-append id c.next c.entries,
    v.held k id,
    v.below id,
  );
  holds = λ id k h l. ground (
    arith,
    lookup-set_locks k keys c.next c.attempts,
    has_id-append id c.next c.entries,
    v.holds id k,
    v.below id,
    free k,
  );
  below = λ id h. ground (arith, has_id-append id c.next c.entries, v.below id);
  room = omega (arith, room, length-append c.entries (c.next ∷ []));
}

pub admit-Inv :
    (keys : List String) (key : String) (c : Coordinator)
    → Inv c
    → holders keys c.attempts ≡ []
    → Inv (admit keys key c).0
unfolding admit
admit-Inv keys key c v free =
    let shorter = trim_completed c.entries c in
    let v' = trim_completed_keeps Inv (λ id d _. delete_entry-Inv id d) c.entries c v in
    elim (Bool-cases (leb shorter.limit (length shorter.entries))) [
      | inl full ↦ rw full v'
      | inr room ↦ rw room (
          start_entry-Inv keys key shorter v'
            (λ k h.
              trim_completed_keeps (λ d. lookup k d.attempts ≡ none)
                (λ id d _. delete_entry-free k id d) c.entries c
                (holders-eq-nil k keys c.attempts free h))
            (ground arith))
    ]

pub occupied-eq-nil : (ids : List ℕ) → unique_ids ids ≡ [] → ids ≡ []
occupied-eq-nil [] h = refl
occupied-eq-nil (id ∷ ids) h = cc

-- A request changes nothing, or admits an entry for its own keys, at least one, that nobody holds.
pub run_many_admits {ℓ} :
    (P : Coordinator → Type ℓ) (lock_keys key : Value) (callback : Bool) (c : Coordinator)
    → P c
    → ((length (normalized_lock_set lock_keys) == 0) ≡ false
        → holders (normalized_lock_set lock_keys) c.attempts ≡ []
        → P (admit (normalized_lock_set lock_keys) (normalize_key key) c).0)
    → P (run_many lock_keys key callback c).0
unfolding run_many attempt
run_many_admits P lock_keys key callback c same admitted =
    let keys = normalized_lock_set lock_keys in
    let k = normalize_key key in
    elim (Bool-cases (length keys == 0 || is_empty k)) [
      | inl blank ↦ rw blank same
      | inr some_keys ↦ elim (Bool-cases callback) [
        | inl callable ↦
            rw (some_keys, callable)
              (tried (ground (arith, some_keys)) (occupied keys c.attempts) refl)
        | inr refused ↦ rw (some_keys, refused) same
      ]
    ]
  where
    tried :
        (length (normalized_lock_set lock_keys) == 0) ≡ false
        → (ids : List ℕ) → occupied (normalized_lock_set lock_keys) c.attempts ≡ ids
        → P (attempt (normalized_lock_set lock_keys) (normalize_key key) c ids).0
    tried some_given [] e = admitted some_given (occupied-eq-nil _ e)
    tried some_given (id ∷ ids) e = same

-- A request changes nothing, or admits an entry whose keys nobody holds.
pub run_many_cases {ℓ} :
    (P : Coordinator → Type ℓ) (lock_keys key : Value) (callback : Bool) (c : Coordinator)
    → P c
    → ((keys : List String) (k : String) → holders keys c.attempts ≡ [] → P (admit keys k c).0)
    → P (run_many lock_keys key callback c).0
run_many_cases P lock_keys key callback c same admitted =
    run_many_admits P lock_keys key callback c same (λ some_keys free. admitted _ _ free)

delete_entry_keeps :
    (id : ℕ) (c : Coordinator) (g : Entry → Entry)
    → (g (c.store id)).lock_keys ≡ (c.store id).lock_keys
    → (g ((delete_entry id c).store id)).lock_keys ≡ ((delete_entry id c).store id).lock_keys
unfolding delete_entry
delete_entry_keeps id c g h = h

Effect-Inv : {o : Option ℕ} {c d : Coordinator} → Effect o c d → Inv c → Inv d
Effect-Inv (unchanged e) v = subst Inv (sym e) v
Effect-Inv (changes id f same e) v = subst Inv (sym e) (change-Inv id f _ same v)
Effect-Inv {c = c} (changes_twice id f g same same' e) v =
    subst Inv (sym e)
      (change-Inv id g (change id f c) (ground (arith, same, same')) (change-Inv id f c same v))
Effect-Inv {c = c} (releases id f g same same' may about e) v = subst Inv (sym e) (
    change-Inv id g (delete_entry id (change id f c))
      (delete_entry_keeps id (change id f c) g (ground (arith, same')))
      (delete_entry-Inv id (change id f c) (change-Inv id f c same v)))

pub step-Inv : (e : Event) (c : Coordinator) → Inv c → Inv (step e c)
unfolding step
step-Inv e c v =
    request_cases (λ e. Inv (step e c))
      (λ lock_keys key callback.
        run_many_cases Inv lock_keys key callback c v (λ keys k free. admit-Inv keys k c v free))
      (λ e other. Effect-Inv (step-Effect e c other) v) e

pub steps-Inv : (es : List Event) (c : Coordinator) → Inv c → Inv (steps es c)
unfolding steps
steps-Inv [] c v = v
steps-Inv (e ∷ es) c v = steps-Inv es (step e c) (step-Inv e c v)

pub created-Inv : (max_entries : ℕ) → Inv (create_relay_submission_coordinator max_entries)
unfolding create_relay_submission_coordinator new_entry lookup
created-Inv max_entries = record {
  held = λ k id h. ground arith;
  holds = λ id k h l. ground arith;
  below = λ id h. ground arith;
  room = ground arith;
}

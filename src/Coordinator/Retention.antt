-- ===== src/Coordinator/Retention.antt =====
-- When an entry and its locks are kept.
use clairveil_samples.Coordinator.Effect.{
  Effect, changes, changes_twice, is_releasable, releases, step-Effect, unchanged,
}
use clairveil_samples.Coordinator.Invariant.{
  Inv, created-Inv, run_many_cases, step-Inv, steps-Inv, trim_completed_keeps,
}
use clairveil_samples.Coordinator.Locks.{has_id-append, has_id-without_id}
use clairveil_samples.Coordinator.Run.{admit, start_entry}
use clairveil_samples.Coordinator.State.{
  Coordinator, Entry, create_relay_submission_coordinator, delete_entry, has_id, is_evictable,
  trim_completed,
}
use clairveil_samples.Coordinator.Step.{
  Event, marks_failed, marks_rejected, marks_started, reconcile_threw, reconciled, reconciles_key,
  reconciles_many, records_evidence, resolves, runs, settles, step, steps, throws,
}
use clairveil_samples.Js.{lookup}
use clairveil_samples.Prelude.{
  Bool, Bool-cases, List, Option, String, [], ap, arith, false, has, if◌then◌else◌, inl, inr, leb,
  length, refl, some, subst, sym, true, ℕ, ◌<◌, ◌==◌, ◌||◌, ◌↔◌, ◌∙◌, ◌∷◌, ◌≡◌, ◌≤◌,
}

abbrev live : ℕ → Coordinator → Bool
live id c = has_id id c.entries

-- The entry `id` is known in both states with the same locks, and in `d` it is in the set or releasable.
record Kept (id : ℕ) (c d : Coordinator) : Type 0 where
  stays : (live id d || is_releasable (d.store id)) ≡ true
  same_locks : (d.store id).lock_keys ≡ (c.store id).lock_keys
  known : id < d.next

Effect-Kept :
    (id : ℕ) {o : Option ℕ} {c d : Coordinator}
    → Effect o c d
    → live id c ≡ true
    → id < c.next
    → Kept id c d
unfolding delete_entry
Effect-Kept id {c = c} (unchanged e) l b =
    subst (Kept id c) (sym e) (record { stays = ground (arith, l); same_locks = refl; known = b })
Effect-Kept id {c = c} (changes j f same e) l b =
    subst (Kept id c) (sym e)
      (record { stays = ground (arith, l); same_locks = ground (arith, same); known = b })
Effect-Kept id {c = c} (changes_twice j f g same same' e) l b =
    subst (Kept id c) (sym e)
      (record { stays = ground (arith, l); same_locks = ground (arith, same, same'); known = b })
Effect-Kept id {c = c} (releases j f g same same' may about e) l b =
    subst (Kept id c) (sym e) (record {
      stays = ground (arith, l, may, has_id-without_id id j c.entries);
      same_locks = ground (arith, same, same');
      known = b;
    })

evictable_releasable : (e : Entry) → is_evictable e ≡ true → is_releasable e ≡ true
unfolding is_evictable
evictable_releasable e h = ground arith

delete_entry-Kept :
    (id : ℕ) (c : Coordinator) (j : ℕ) (d : Coordinator)
    → is_evictable (d.store j) ≡ true
    → Kept id c d
    → Kept id c (delete_entry j d)
unfolding delete_entry
delete_entry-Kept id c j d old k = record {
  stays = elim (Bool-cases (id == j)) [
    | inl e ↦ ground (arith, e, evictable_releasable (d.store j) old)
    | inr n ↦ ground (arith, n, k.stays, has_id-without_id id j d.entries)
  ];
  same_locks = k.same_locks;
  known = k.known;
}

start_entry-Kept :
    (id : ℕ) (c d : Coordinator) (keys : List String) (key : String)
    → Kept id c d
    → Kept id c (start_entry keys key d)
unfolding start_entry
start_entry-Kept id c d keys key k = record {
  stays = ground (arith, k.stays, k.known, has_id-append id d.next d.entries);
  same_locks = ground (arith, k.same_locks, k.known);
  known = ground (arith, k.known);
}

admit-Kept :
    (id : ℕ) (keys : List String) (key : String) (c : Coordinator)
    → live id c ≡ true
    → id < c.next
    → Kept id c (admit keys key c).0
unfolding admit
admit-Kept id keys key c l b =
    let trimmed = trim_completed c.entries c in
    let kept =
      trim_completed_keeps (Kept id c) (delete_entry-Kept id c) c.entries c
        (record { stays = ground (arith, l); same_locks = refl; known = b }) in
    elim (Bool-cases (leb trimmed.limit (length trimmed.entries))) [
      | inl full ↦ rw full kept
      | inr room ↦ rw room (start_entry-Kept id c trimmed keys key kept)
    ]

step-Kept :
    (e : Event) (id : ℕ) (c : Coordinator) → live id c ≡ true → id < c.next → Kept id c (step e c)
unfolding step
step-Kept (runs lock_keys key callback) id c l b =
    run_many_cases (Kept id c) lock_keys key callback c
      (record { stays = ground (arith, l); same_locks = refl; known = b })
      (λ keys k free. admit-Kept id keys k c l b)
step-Kept (marks_started j) id c l b = Effect-Kept id (step-Effect (marks_started j) c (λ h. h)) l b
step-Kept (marks_rejected j) id c l b =
    Effect-Kept id (step-Effect (marks_rejected j) c (λ h. h)) l b
step-Kept (marks_failed j) id c l b = Effect-Kept id (step-Effect (marks_failed j) c (λ h. h)) l b
step-Kept (records_evidence j evidence) id c l b =
    Effect-Kept id (step-Effect (records_evidence j evidence) c (λ h. h)) l b
step-Kept (resolves j result) id c l b =
    Effect-Kept id (step-Effect (resolves j result) c (λ h. h)) l b
step-Kept (throws j) id c l b = Effect-Kept id (step-Effect (throws j) c (λ h. h)) l b
step-Kept (settles j) id c l b = Effect-Kept id (step-Effect (settles j) c (λ h. h)) l b
step-Kept (reconciles_many lock_keys callback) id c l b =
    Effect-Kept id (step-Effect (reconciles_many lock_keys callback) c (λ h. h)) l b
step-Kept (reconciles_key key callback) id c l b =
    Effect-Kept id (step-Effect (reconciles_key key callback) c (λ h. h)) l b
step-Kept (reconciled j outcome) id c l b =
    Effect-Kept id (step-Effect (reconciled j outcome) c (λ h. h)) l b
step-Kept (reconcile_threw j) id c l b =
    Effect-Kept id (step-Effect (reconcile_threw j) c (λ h. h)) l b

-- The states that a coordinator made for `n` entries is in after some events.
abbrev pub reached : ℕ → List Event → Coordinator
reached n es = steps es (create_relay_submission_coordinator n)

reached-Inv : (n : ℕ) (es : List Event) → Inv (reached n es)
reached-Inv n es = steps-Inv es _ (created-Inv n)

-- After any events, a lock is held by an attempt exactly if the attempt is in the set and lists the lock
-- among its keys.
pub locks_iff :
    (n : ℕ) (es : List Event) (k : String) (id : ℕ)
    → (lookup k (reached n es).attempts ≡ some id) ↔ (
        (has_id id (reached n es).entries ≡ true)
        × (has k ((reached n es).store id).lock_keys ≡ true))
locks_iff n es k id = let v = reached-Inv n es in (v.held k id, λ h. v.holds id k (h.0) (h.1))

-- After any events, two attempts in the set that share a lock key are the same attempt: no nullifier is
-- ever in two attempts at once.
pub attempts_exclusive :
    (n : ℕ) (es : List Event) (k : String) (i j : ℕ)
    → has_id i (reached n es).entries ≡ true
    → has_id j (reached n es).entries ≡ true
    → has k ((reached n es).store i).lock_keys ≡ true
    → has k ((reached n es).store j).lock_keys ≡ true
    → i ≡ j
attempts_exclusive n es k i j li lj hi hj =
    let v = reached-Inv n es in ground (arith, v.holds i k li hi, v.holds j k lj hj)

-- Whatever event comes next, an attempt in the set that is not releasable after it (it crossed the
-- submission boundary, was not rejected, and is not known to be included in the chain) still holds
-- each of its locks: no event gives up the lock of an ambiguous submission.
pub ambiguous_keeps_locks :
    (n : ℕ) (es : List Event) (e : Event) (id : ℕ) (k : String)
    → has_id id (reached n es).entries ≡ true
    → has k ((reached n es).store id).lock_keys ≡ true
    → is_releasable ((step e (reached n es)).store id) ≡ false
    → lookup k (step e (reached n es)).attempts ≡ some id
ambiguous_keeps_locks n es e id k l h ambiguous =
    let c = reached n es in
    let v = reached-Inv n es in
    let kept = step-Kept e id c l (v.below id l) in
    (step-Inv e c v).holds id k (ground (arith, kept.stays, ambiguous))
      (ground (arith, kept.same_locks, h))

Effect-limit : {o : Option ℕ} {c d : Coordinator} → Effect o c d → d.limit ≡ c.limit
unfolding delete_entry
Effect-limit (unchanged e) = ap (λ (x : Coordinator). x.limit) e
Effect-limit (changes j f same e) = ap (λ (x : Coordinator). x.limit) e
Effect-limit (changes_twice j f g same same' e) = ap (λ (x : Coordinator). x.limit) e
Effect-limit (releases j f g same same' may about e) = ap (λ (x : Coordinator). x.limit) e

admit-limit :
    (keys : List String) (key : String) (c : Coordinator) → (admit keys key c).0.limit ≡ c.limit
unfolding admit delete_entry start_entry
admit-limit keys key c =
    let trimmed = trim_completed c.entries c in
    let kept =
      trim_completed_keeps (λ d. d.limit ≡ c.limit) (λ j d old same. same) c.entries c refl in
    elim (Bool-cases (leb trimmed.limit (length trimmed.entries))) [
      | inl full ↦ rw full kept
      | inr room ↦ rw room kept
    ]

step-limit : (e : Event) (c : Coordinator) → (step e c).limit ≡ c.limit
unfolding step
step-limit (runs lock_keys key callback) c =
    run_many_cases (λ d. d.limit ≡ c.limit) lock_keys key callback c refl
      (λ keys k free. admit-limit keys k c)
step-limit (marks_started j) c = Effect-limit (step-Effect (marks_started j) c (λ h. h))
step-limit (marks_rejected j) c = Effect-limit (step-Effect (marks_rejected j) c (λ h. h))
step-limit (marks_failed j) c = Effect-limit (step-Effect (marks_failed j) c (λ h. h))
step-limit (records_evidence j evidence) c =
    Effect-limit (step-Effect (records_evidence j evidence) c (λ h. h))
step-limit (resolves j result) c = Effect-limit (step-Effect (resolves j result) c (λ h. h))
step-limit (throws j) c = Effect-limit (step-Effect (throws j) c (λ h. h))
step-limit (settles j) c = Effect-limit (step-Effect (settles j) c (λ h. h))
step-limit (reconciles_many lock_keys callback) c =
    Effect-limit (step-Effect (reconciles_many lock_keys callback) c (λ h. h))
step-limit (reconciles_key key callback) c =
    Effect-limit (step-Effect (reconciles_key key callback) c (λ h. h))
step-limit (reconciled j outcome) c = Effect-limit (step-Effect (reconciled j outcome) c (λ h. h))
step-limit (reconcile_threw j) c = Effect-limit (step-Effect (reconcile_threw j) c (λ h. h))

steps-limit : (es : List Event) (c : Coordinator) → (steps es c).limit ≡ c.limit
unfolding steps
steps-limit [] c = refl
steps-limit (e ∷ es) c = steps-limit es (step e c) ∙ step-limit e c

-- After any events, there are at most as many attempts in the set as the coordinator was made for: 256
-- where `maxEntries` is 0.
pub entries_bounded :
    (n : ℕ) (es : List Event) → length (reached n es).entries ≤ (if n == 0 then 256 else n)
unfolding create_relay_submission_coordinator
entries_bounded n es =
    omega (arith, (reached-Inv n es).room, steps-limit es (create_relay_submission_coordinator n))

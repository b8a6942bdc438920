-- ===== src/Coordinator/Refine.antt =====
-- The coordinator against what it promises: a table of locks, in which an attempt takes locks that are
-- free, all of them at once, and gives up all of its locks at once.
use clairveil_samples.Coordinator.Effect.{
  Effect, IsRequest, changes, changes_twice, is_releasable, releases, request_cases, step-Effect,
  subject, unchanged,
}
use clairveil_samples.Coordinator.Invariant.{
  Inv, change-Inv, created-Inv, delete_entry-Inv, run_many_admits, steps-Inv, trim_completed_keeps,
}
use clairveil_samples.Coordinator.Locks.{
  held_by, holders-eq-nil, lookup-delete_locks, lookup-set_locks,
}
use clairveil_samples.Coordinator.Run.{admit, holders, start_entry}
use clairveil_samples.Coordinator.State.{
  Coordinator, Entry, change, create_relay_submission_coordinator, delete_entry, is_evictable,
  normalize_key, normalized_lock_set, trim_completed,
}
use clairveil_samples.Coordinator.Step.{Event, runs, step, steps}
use clairveil_samples.Js.{Value, lookup}
use clairveil_samples.Prelude.{
  All, Bool, Bool-cases, List, Option, String, [], ap, arith, false, has, if◌then◌else◌, inl, inr,
  leb, length, none, not, refl, some, subst, sym, true, ℕ, ◌&&◌, ◌==◌, ◌||◌, ◌∙◌, ◌∷◌, ◌≡◌, ◌≢◌,
}
use mathlib.Core.Path.{fun_ext}

-- Who holds a lock.
abbrev pub Owners : Type 0
Owners = String → Option ℕ

unfoldable pub acquire : List String → ℕ → Owners → Owners
acquire keys id owner k = if has k keys then some id else owner k

unfoldable pub release_all : ℕ → Owners → Owners
release_all id owner k = if held_by (owner k) id then none else owner k

-- The table after some attempts gave up all that they held.
unfoldable pub release_each : List ℕ → Owners → Owners
release_each [] t = t
release_each (id ∷ ids) t = release_all id (release_each ids t)

-- The moves of a table `t` that an event allows. `may_release` and `may_forget` say which attempts may
-- lose their locks by a call and to make room, and `next` is the number of the next attempt. A move by a
-- request may forget attempts, and then take the keys of the request, all of them at once, for the next
-- attempt, where each key was free before anything was forgotten. The end or the outcome of an attempt
-- may give up all that this attempt holds. Nothing else moves.
pub data Move (e : Event) (may_release may_forget : ℕ → Bool) (next : ℕ) (t : Owners)
    : Owners → Type 0 where
  no_move : Move e may_release may_forget next t t
  gives_up :
      (id : ℕ)
      → subject e ≡ some id
      → may_release id ≡ true
      → Move e may_release may_forget next t (release_all id t)
  forgets :
      IsRequest e
      → (ids : List ℕ) → All (λ id. may_forget id ≡ true) ids
      → Move e may_release may_forget next t (release_each ids t)
  takes :
      (lock_keys key : Value) (callback : Bool)
      → e ≡ runs lock_keys key callback
      → (ids : List ℕ) → All (λ id. may_forget id ≡ true) ids
      → (length (normalized_lock_set lock_keys) == 0) ≡ false
      → ((k : String) → has k (normalized_lock_set lock_keys) ≡ true → t k ≡ none)
      → ((k : String) → t k ≢ some next)
      → Move e may_release may_forget next t
          (acquire (normalized_lock_set lock_keys) next (release_each ids t))

abbrev pub owners : Coordinator → Owners
owners c k = lookup k c.attempts

-- An attempt that may be forgotten: it has settled, and it crossed no boundary or succeeded in the chain.
abbrev pub is_forgettable : Entry → Bool
is_forgettable e = e.settled && (not e.submission_started || e.included_execution_succeeded)

-- The move of the locks from one state of the coordinator to the next, which the event allows: the end
-- of an attempt gives up its locks only where it is left releasable, and a request only those of attempts
-- that may be forgotten.
abbrev pub Moves : Event → Coordinator → Coordinator → Type 0
Moves e c d =
    Move e (λ id. is_releasable (d.store id)) (λ id. is_forgettable (c.store id)) c.next (owners c)
      (owners d)

delete_entry-owners :
    (id : ℕ) (c : Coordinator) → Inv c → owners (delete_entry id c) ≡ release_all id (owners c)
unfolding delete_entry release_all
delete_entry-owners id c v =
    fun_ext
      (λ k. ground (arith, lookup-delete_locks k (c.store id).lock_keys id c.attempts, v.held k id))

start_entry-owners :
    (keys : List String) (key : String) (c : Coordinator)
    → owners (start_entry keys key c) ≡ acquire keys c.next (owners c)
unfolding start_entry acquire
start_entry-owners keys key c = fun_ext (λ k. lookup-set_locks k keys c.next c.attempts)

next_is_fresh : (c : Coordinator) → Inv c → (k : String) → owners c k ≢ some c.next
next_is_fresh c v k h = omega (arith, v.below c.next (v.held k c.next h).0)

-- What is kept while entries are shorter: the invariant, the entries and the next number, and which
-- attempts were forgotten.
abbrev Trimmed : Coordinator → Coordinator → Type 0
Trimmed c d =
    Inv d
    × (d.store ≡ c.store)
    × (d.next ≡ c.next)
    × (ids : List ℕ) × All (λ id. is_forgettable (c.store id) ≡ true) ids
    × (owners d ≡ release_each ids (owners c))

forgets_one :
    (c : Coordinator) (id : ℕ) (d : Coordinator)
    → is_evictable (d.store id) ≡ true
    → Trimmed c d
    → Trimmed c (delete_entry id d)
unfolding delete_entry release_each is_evictable
forgets_one c id d old (v, same, next, ids, all, e) = (
  delete_entry-Inv id d v,
  same,
  next,
  id ∷ ids,
  (subst (λ (s : ℕ → Entry). is_forgettable (s id) ≡ true) same old, all),
  delete_entry-owners id d v ∙ ap (release_all id) e,
)

trim_completed-Trimmed : (c : Coordinator) → Inv c → Trimmed c (trim_completed c.entries c)
unfolding release_each
trim_completed-Trimmed c v =
    trim_completed_keeps (Trimmed c) (forgets_one c) c.entries c (v, refl, refl, [], tt, refl)

admit-Moves :
    (lock_keys key : Value) (callback : Bool) (c : Coordinator)
    → Inv c
    → (length (normalized_lock_set lock_keys) == 0) ≡ false
    → holders (normalized_lock_set lock_keys) c.attempts ≡ []
    → Moves
        (runs lock_keys key callback)
        c
        (admit (normalized_lock_set lock_keys) (normalize_key key) c).0
unfolding admit
admit-Moves lock_keys key callback c v some_given free =
    let keys = normalized_lock_set lock_keys in
    let shorter = trim_completed c.entries c in
    let (v', same, next, ids, old, e) = trim_completed-Trimmed c v in
    elim (Bool-cases (leb shorter.limit (length shorter.entries))) [
      | inl full ↦ rw full (
          subst (Move (runs lock_keys key callback) _ _ c.next (owners c)) (sym e)
            (forgets tt ids old))
      | inr room ↦ rw room (
          subst (Move (runs lock_keys key callback) _ _ c.next (owners c))
            (sym (taken keys shorter ids next e))
            (takes lock_keys key callback refl ids old some_given
              (λ k h. holders-eq-nil k keys c.attempts free h) (next_is_fresh c v)))
    ]
  where
    taken :
        (keys : List String) (d : Coordinator) (ids : List ℕ)
        → d.next ≡ c.next
        → owners d ≡ release_each ids (owners c)
        → owners (start_entry keys (normalize_key key) d)
          ≡ acquire keys c.next (release_each ids (owners c))
    taken keys d ids next e =
        start_entry-owners keys (normalize_key key) d ∙ (λ i. acquire keys (next i) (e i))

released :
    (e : Event) (id : ℕ) (f g : Entry → Entry) (c : Coordinator)
    → Inv c
    → subject e ≡ some id
    → (f (c.store id)).lock_keys ≡ (c.store id).lock_keys
    → is_releasable (g (f (c.store id))) ≡ true
    → Moves e c (change id g (delete_entry id (change id f c)))
unfolding delete_entry
released e id f g c v about same may =
    subst (Move e _ _ c.next (owners c))
      (sym (delete_entry-owners id (change id f c) (change-Inv id f c same v)))
      (gives_up id about (ground (arith, may)))

Effect-Moves : (e : Event) {c d : Coordinator} → Inv c → Effect (subject e) c d → Moves e c d
Effect-Moves e {c} v (unchanged p) = subst (Moves e c) (sym p) no_move
Effect-Moves e {c} v (changes id f same p) = subst (Moves e c) (sym p) no_move
Effect-Moves e {c} v (changes_twice id f g same same' p) = subst (Moves e c) (sym p) no_move
Effect-Moves e {c} v (releases id f g same same' may about p) =
    subst (Moves e c) (sym p) (released e id f g c v about same may)

step-Moves : (e : Event) (c : Coordinator) → Inv c → Moves e c (step e c)
unfolding step
step-Moves e c v =
    request_cases (λ e. Moves e c (step e c))
      (λ lock_keys key callback.
        run_many_admits (Moves (runs lock_keys key callback) c) lock_keys key callback c no_move
          (λ some_keys free. admit-Moves lock_keys key callback c v some_keys free))
      (λ e other. Effect-Moves e v (step-Effect e c other)) e

-- The locks of the coordinator refine a table: it starts empty, and after any calls and callbacks, in any
-- order, the next event makes a move that the table allows. A request takes the keys that it names, at
-- least one and all at once, for an attempt that held nothing, where each was free, or takes none; to
-- make room it forgets only attempts that settled and crossed no boundary or succeeded. The end of an
-- attempt or of its reconciliation may give up all locks of that attempt, only if it then counts as not
-- started, rejected, or included in the chain. No other event changes a lock.
pub steps-Moves :
    (max_entries : ℕ) (es : List Event) (e : Event)
    → (owners (create_relay_submission_coordinator max_entries) ≡ (λ k. none))
      × Moves e
          (steps es (create_relay_submission_coordinator max_entries))
          (step e (steps es (create_relay_submission_coordinator max_entries)))
unfolding create_relay_submission_coordinator lookup
steps-Moves max_entries es e = (
  refl,
  step-Moves e (steps es (create_relay_submission_coordinator max_entries))
      (steps-Inv es (create_relay_submission_coordinator max_entries) (created-Inv max_entries)),
)

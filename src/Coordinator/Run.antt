-- ===== src/Coordinator/Run.antt =====
-- Asking for a submission: joined to the attempt that runs, refused, or started as a new entry.
use clairveil_samples.Coordinator.State.{
  Coordinator, new_entry, normalize_key, normalized_lock_set, trim_completed, update, without_id,
}
use clairveil_samples.Js.{
  Value, array, cons, get, insert, is_empty, is_hash, lookup, nil, strip_0x, text_or_empty,
  to_lower_case, trim, ◌or◌,
}
use clairveil_samples.Prelude.{
  Bool, List, Result, String, [], false, if◌then◌else◌, leb, length, none, not, ok, some, throw,
  true, ℕ, ◌&&◌, ◌++◌, ◌+◌, ◌===◌, ◌==◌, ◌||◌, ◌∷◌,
}

pub data RunOutcome : Type 0 where
  -- The promise of the entry that already holds the locks.
  joined : ℕ → RunOutcome
  -- A new entry, whose callback is called.
  started : ℕ → RunOutcome

abbrev pub unique_ids : List ℕ → List ℕ
unique_ids [] = []
unique_ids (id ∷ ids) = id ∷ without_id id (unique_ids ids)

-- The holders of the keys.
unfoldable pub holders : List String → List (String × ℕ) → List ℕ
holders [] attempts = []
holders (key ∷ keys) attempts = elim (lookup key attempts) [
  | none ↦ holders keys attempts
  | some id ↦ id ∷ holders keys attempts
]

abbrev pub occupied : List String → List (String × ℕ) → List ℕ
occupied keys attempts = unique_ids (holders keys attempts)

abbrev pub same_keys : List String → List String → Bool
same_keys [] [] = true
same_keys (s ∷ ss) (t ∷ ts) = s === t && same_keys ss ts
same_keys _ _ = false

-- Each of the keys is held by `id`.
abbrev pub set_locks : List String → ℕ → List (String × ℕ) → List (String × ℕ)
set_locks [] id attempts = attempts
set_locks (key ∷ keys) id attempts = set_locks keys id (insert key id attempts)

unfoldable pub start_entry : List String → String → Coordinator → Coordinator
start_entry keys idempotency_key c = record c {
  attempts = set_locks keys c.next c.attempts;
  entries = c.entries ++ c.next ∷ [];
  store = update c.store c.next (new_entry keys idempotency_key);
  next = c.next + 1;
}

unfoldable pub admit : List String → String → Coordinator → Coordinator × Result RunOutcome
admit keys idempotency_key c =
    let trimmed = trim_completed c.entries c in
    if leb trimmed.limit (length trimmed.entries)
    then (trimmed, throw "relay submission coordinator capacity is exhausted by in-flight requests")
    else (start_entry keys idempotency_key trimmed, ok (started trimmed.next))

-- Where one entry alone holds some of the keys, it is joined if it is the same attempt.
unfoldable pub join : List String → String → Coordinator → List ℕ → Result RunOutcome
join keys idempotency_key c (id ∷ []) =
    if (c.store id).idempotency_key === idempotency_key && same_keys (c.store id).lock_keys keys
    then ok (joined id)
    else throw "relay input nullifiers already have a submission attempt"
join keys idempotency_key c _ = throw "relay input nullifiers already have a submission attempt"

-- What follows for the entries that hold some of the keys.
unfoldable pub attempt :
    List String → String → Coordinator → List ℕ → Coordinator × Result RunOutcome
attempt keys key c [] = admit keys key c
attempt keys key c (id ∷ ids) = (c, join keys key c (id ∷ ids))

-- `runMany`; `callback` says that `submit` is a function.
unfoldable pub run_many : Value → Value → Bool → Coordinator → Coordinator × Result RunOutcome
run_many lock_keys idempotency_key callback c =
    let keys = normalized_lock_set lock_keys in
    let key = normalize_key idempotency_key in
    if length keys == 0 || is_empty key
    then (c, throw "relay submission lock and idempotency keys are required")
    else if not callback
    then (c, throw "relay submission callback is required")
    else attempt keys key c (occupied keys c.attempts)

-- `run(lockKey, idempotencyKey, submit)`
unfoldable pub run : Value → Value → Bool → Coordinator → Coordinator × Result RunOutcome
run lock_key idempotency_key callback c =
    run_many (array (cons lock_key nil)) idempotency_key callback c

-- `has(key)`
unfoldable pub has_attempt : Value → Coordinator → Bool
has_attempt key c = elim (lookup (normalize_key key) c.attempts) [ none ↦ false | some id ↦ true ]

-- `relaySubmissionIdempotencyKey`
unfoldable pub relay_submission_idempotency_key : Value → Result String
relay_submission_idempotency_key payload =
    let hash = strip_0x (
      to_lower_case
        (trim (text_or_empty (get "payload_hash" payload or get "payloadHash" payload)))) in
    if is_hash hash then ok hash else throw "relay withdraw payload has an invalid payload hash"

-- ===== src/Coordinator/State.antt =====
-- The entries of the coordinator, the locks that they hold, and releasing them. An entry is known by
-- the number that it was made under, as the source knows it by its object. Values are immutable here,
-- so the deep copies that the source hands out (`snapshotValue`) are the values themselves.
use clairveil_samples.Js.{
  Value, elements, is_empty, lookup, null, remove, sort, text_or_empty, to_lower_case, trim,
}
use clairveil_samples.Prelude.{
  Bool, List, Option, String, [], false, if◌then◌else◌, keep, length, ltb, map, none, not, some,
  unique, ℕ, ◌&&◌, ◌==◌, ◌||◌, ◌∷◌,
}

pub record Entry : Type 0 where
  pub lock_keys : List String
  pub idempotency_key : String
  pub submission_started : Bool
  pub submission_rejected : Bool
  pub included_execution_failed : Bool
  pub included_execution_succeeded : Bool
  pub submission_evidence : Value
  pub result : Value
  -- A reconciliation runs.
  pub reconciling : Bool
  pub settled : Bool
  -- The promise of the submission, unless a reconciliation put one in its place that holds this value.
  pub replaced_promise : Option Value

pub record Coordinator : Type 0 where
  pub limit : ℕ
  pub attempts : List (String × ℕ)
  -- The entries of the set, in the order of insertion.
  pub entries : List ℕ
  -- The entries that were ever made, by number, and the next number.
  pub store : ℕ → Entry
  pub next : ℕ

unfoldable pub new_entry : List String → String → Entry
new_entry lock_keys idempotency_key = record {
  lock_keys = lock_keys;
  idempotency_key = idempotency_key;
  submission_started = false;
  submission_rejected = false;
  included_execution_failed = false;
  included_execution_succeeded = false;
  submission_evidence = null;
  result = null;
  reconciling = false;
  settled = false;
  replaced_promise = none;
}

-- `maxEntries` is a natural number here; 0 stands for the default, as in the source.
unfoldable pub create_relay_submission_coordinator : ℕ → Coordinator
create_relay_submission_coordinator max_entries = record {
  limit = if max_entries == 0 then 256 else max_entries;
  attempts = [];
  entries = [];
  store = λ id. new_entry [] "";
  next = 0;
}

abbrev pub update : (ℕ → Entry) → ℕ → Entry → ℕ → Entry
update store id e j = if id == j then e else store j

-- The entry `id` changed by `f`.
abbrev pub change : ℕ → (Entry → Entry) → Coordinator → Coordinator
change id f c = record c { store = update c.store id (f (c.store id)) }

unfoldable pub normalize_key : Value → String
normalize_key key = to_lower_case (trim (text_or_empty key))

unfoldable pub normalized_lock_set : Value → List String
normalized_lock_set lock_keys = elim (elements lock_keys) [
  | none ↦ []
  | some keys ↦ sort (unique (keep (λ key. not (is_empty key)) (map normalize_key keys)))
]

-- `if (attempts.get(key) === entry) attempts.delete(key)`
unfoldable pub delete_lock : String → ℕ → List (String × ℕ) → List (String × ℕ)
delete_lock key id attempts = elim (lookup key attempts) [
  | none ↦ attempts
  | some holder ↦ if holder == id then remove key attempts else attempts
]

unfoldable pub delete_locks : List String → ℕ → List (String × ℕ) → List (String × ℕ)
delete_locks [] id attempts = attempts
delete_locks (key ∷ keys) id attempts = delete_locks keys id (delete_lock key id attempts)

abbrev pub without_id : ℕ → List ℕ → List ℕ
without_id id = keep (λ j. not (j == id))

abbrev pub has_id : ℕ → List ℕ → Bool
has_id id [] = false
has_id id (j ∷ ids) = j == id || has_id id ids

unfoldable pub delete_entry : ℕ → Coordinator → Coordinator
delete_entry id c = record c {
  attempts = delete_locks (c.store id).lock_keys id c.attempts;
  entries = without_id id c.entries;
}

-- An entry that may be forgotten to admit another.
unfoldable pub is_evictable : Entry → Bool
is_evictable e = e.settled && (not e.submission_started || e.included_execution_succeeded)

-- The loop of `trimCompleted` over the entries.
unfoldable pub trim_completed : List ℕ → Coordinator → Coordinator
trim_completed [] c = c
trim_completed (id ∷ ids) c =
    let rest = trim_completed ids (if is_evictable (c.store id) then delete_entry id c else c) in
    if ltb (length c.entries) c.limit then c else rest

-- ===== src/Relay/Nullifiers.antt =====
-- The nullifier that a payload locks, and the check before a submission.
use clairveil_samples.Js.{
  Value, array, bigint, boolean, get, is_empty, is_false, is_hash, is_undefined, lookup,
  minus_bigint, null, number, object, string, strip_0x, to_lower_case, trim, undefined,
}
use clairveil_samples.Prelude.{
  >>=-eq-ok, Bool, Bool-cases, List, Option, Result, String, [], ap, arith, eq_iff, every, false,
  if◌then◌else◌, inl, inr, none, ok, refl, some, throw, true, ◌>>=◌, ◌↔◌, ◌∷◌, ◌≡◌, ◌⊎◌,
}
use clairveil_samples.Relay.Preflight.{
  Statuses, after_check, is_unspent, malformed, relay_payload_nullifiers, statuses,
  strict_nullifier_hex, submit_relay_after_nullifier_preflight, unavailable,
}
use clairveil_samples.Relay.Records.{is_empty_iff}

-- The empty text is no hash.
is_hash-ne-empty : (s : String) → is_hash s ≡ true → is_empty s ≡ false
unfolding is_hash
is_hash-ne-empty String.[] h = cc
is_hash-ne-empty (String.◌∷◌ c s) h = refl

-- A strict nullifier is empty or 64 lower-case hexadecimal digits.
strict_nullifier_hex_cases :
    (v : Value) → (strict_nullifier_hex v ≡ "") ⊎ (is_hash (strict_nullifier_hex v) ≡ true)
unfolding strict_nullifier_hex
strict_nullifier_hex_cases (string s) =
    elim (Bool-cases (is_hash (strip_0x (to_lower_case (trim s))))) [
      | inl yes_hash ↦ inr (rw (yes_hash, if◌then◌else◌) yes_hash)
      | inr no_hash ↦ inl (rw no_hash)
    ]
strict_nullifier_hex_cases _ = inl refl

-- What a payload locks, when it is accepted: its one canonical nullifier, which the alias, if the
-- payload has one, agrees with.
pub record Locks (payload : Value) (key : String) : Type 0 where
  pub canonical : strict_nullifier_hex (get "nullifier_hex" payload) ≡ key
  pub hash : is_hash key ≡ true
  pub alias_agrees :
      (is_undefined (get "nullifierHex" payload) ≡ true)
      ⊎ (strict_nullifier_hex (get "nullifierHex" payload) ≡ key)

-- A payload is accepted exactly with the one nullifier that it locks, 64 lower-case hexadecimal digits;
-- a conflicting alias is never accepted.
pub relay_payload_nullifiers_iff :
    (payload : Value) (keys : List String)
    → (relay_payload_nullifiers payload ≡ ok keys)
      ↔ ((key : String) × (keys ≡ key ∷ []) × Locks payload key)
unfolding relay_payload_nullifiers
relay_payload_nullifiers_iff payload keys =
    let canonical = strict_nullifier_hex (get "nullifier_hex" payload) in
    let alias = strict_nullifier_hex (get "nullifierHex" payload) in
    (
      λ h. (
        canonical,
        ground arith,
        record {
          canonical = refl;
          hash = elim (strict_nullifier_hex_cases (get "nullifier_hex" payload)) [
            | inl e ↦ ground (arith, is_empty_iff canonical)
            | inr e ↦ e
          ];
          alias_agrees = ground (arith, eq_iff alias canonical);
        },
      ),
      λ (key, one, locks). ground (
        arith,
        locks.canonical,
        locks.hash,
        locks.alias_agrees,
        is_hash-ne-empty key,
        eq_iff alias canonical,
      ),
    )

is_false-eq : (v : Value) → is_false v ≡ true → v ≡ boolean false
is_false-eq (boolean true) h = cc
is_false-eq (boolean false) h = refl
is_false-eq undefined h = cc
is_false-eq null h = cc
is_false-eq (number n) h = cc
is_false-eq (bigint n) h = cc
is_false-eq (minus_bigint n) h = cc
is_false-eq (string s) h = cc
is_false-eq (array vs) h = cc
is_false-eq (object fs) h = cc

unspent_of : Option Value → Bool
unspent_of none = false
unspent_of (some status) = is_false status

unspent_of_iff : (o : Option Value) → (unspent_of o ≡ true) ↔ (o ≡ some (boolean false))
unfolding unspent_of
unspent_of_iff none = (λ h. cc, λ h. cc)
unspent_of_iff (some v) = (λ h. ap some (is_false-eq v h), λ h. ground arith)

is_unspent_iff :
    (found : List (String × Value)) (key : String)
    → (every (is_unspent found) (key ∷ []) ≡ true) ↔ (lookup key found ≡ some (boolean false))
unfolding unspent_of
is_unspent_iff found key =
    (λ h. (unspent_of_iff (lookup key found)).0 (ground arith), λ h. rw (h, is_unspent) refl)

-- What stands between a payload and its submission: one canonical nullifier, and a map of statuses,
-- answered to the query for that nullifier, that holds it as unspent.
pub record Cleared (payload : Value) (check : List String → Statuses) : Type 0 where
  pub key : String
  pub locks : Locks payload key
  pub found : List (String × Value)
  pub answer : check (key ∷ []) ≡ statuses found
  pub unspent : lookup key found ≡ some (boolean false)

after_check-eq-ok {ℓ} :
    {A : Type ℓ} (key : String) (submit : Unit {0} → Result A) (answer : Statuses) (a : A)
    → after_check (key ∷ []) submit answer ≡ ok a
    → (found : List (String × Value)) × (answer ≡ statuses found)
      × (lookup key found ≡ some (boolean false))
      × (submit tt ≡ ok a)
unfolding after_check
after_check-eq-ok key submit unavailable a h = cc
after_check-eq-ok key submit malformed a h = cc
after_check-eq-ok key submit (statuses found) a h =
    elim (Bool-cases (every (is_unspent found) (key ∷ []))) [
      | inl clear ↦ (found, refl, (is_unspent_iff found key).0 clear, rw clear at h)
      | inr spent ↦ absurd (not_thrown (rw spent at h))
    ]
  where
    not_thrown : throw "relay withdraw requires explicitly unspent input nullifiers" ≡ ok a → ⊥
    not_thrown e = cc

-- A submission gives a result exactly when the payload locks one canonical nullifier, the query for
-- that nullifier answers with a map in which it is `false`, and the submission itself gives the result.
pub submit_relay_after_nullifier_preflight_iff {ℓ} :
    {A : Type ℓ} (payload : Value) (check : List String → Statuses) (submit : Unit {0} → Result A)
    (a : A)
    → (submit_relay_after_nullifier_preflight payload (some check) (some submit) ≡ ok a)
      ↔ (Cleared payload check × (submit tt ≡ ok a))
unfolding submit_relay_after_nullifier_preflight
submit_relay_after_nullifier_preflight_iff payload check submit a = (to, from)
  where
    to :
        (relay_payload_nullifiers payload >>= λ ns. after_check ns submit (check ns)) ≡ ok a
        → Cleared payload check × (submit tt ≡ ok a)
    to h =
        let (ns, accepted, after) = >>=-eq-ok _ _ h in
        let (key, one, locks) = (relay_payload_nullifiers_iff payload ns).0 accepted in
        let (found, answer, unspent, done) =
          after_check-eq-ok key submit (check (key ∷ [])) a (rw one at after) in
        (
          record { key = key; locks = locks; found = found; answer = answer; unspent = unspent },
          done,
        )

    from :
        Cleared payload check × (submit tt ≡ ok a)
        → (relay_payload_nullifiers payload >>= λ ns. after_check ns submit (check ns)) ≡ ok a
    from (c, done) =
        rw ((relay_payload_nullifiers_iff payload (c.key ∷ [])).1 (c.key, refl, c.locks))
          (rw (c.answer, after_check) (rw ((is_unspent_iff c.found c.key).1 c.unspent) done))

-- ===== src/Recovery/Marking.antt =====
-- When a failure is marked by public/reservation-reconciliation.js.
use clairveil_samples.Js.{Value, get, is_empty, safe_nat, text_or_empty, to_number}
use clairveil_samples.Prelude.{
  >>=-eq-ok, All, Bool, Bool-cases, List, Option, Option-cases, String, [], and-eq-true, ap, arith,
  eq_iff, eq_refl, every, every→All, false, has, inl, inr, length, length-keep-le, length-map, ltb,
  map, none, not, ok, ok_injective, refl, requiring, some, subst, sym, throw, true, unique, ℕ, ◌&&◌,
  ◌<◌, ◌===◌, ◌==◌, ◌∙◌, ◌∷◌, ◌≡◌, ◌≢◌,
}
use clairveil_samples.Prelude.Sets.{has-unique}
use clairveil_samples.Recovery.Failed.{
  BroadcastFailure, Manager, common_reservation_status, durable_attempt, failed_hash, failure,
  failure_token, has_hash, height_or_throw, is_missing, marks, one_token, record_ids,
  replan_explicitly_failed_reservations,
}
use clairveil_samples.Recovery.Records.{given}
use clairveil_samples.Recovery.Rejected.{safe_height}
use clairveil_samples.Status.Cosmos.{normalized_tx_hash}

-- The records of one status, and the lease token that goes with it: each is ready to be sent with a
-- durable attempt and this token, or was submitted with an outcome that is known or not.
pub data IsMarkable (token : String) (records : List Value) : String → Type 0 where
  proof_ready :
      All (λ v. durable_attempt v ≡ true) records
      → All (λ v. text_or_empty (get "lease_token" v) ≡ token) records
      → is_empty token ≡ false
      → IsMarkable token records "ProofReady"
  was_submitted : token ≡ "" → IsMarkable token records "Submitted"
  has_unknown_outcome : token ≡ "" → IsMarkable token records "Unknown"

-- Where a failure is marked: each reservation has the hash that was checked, and names itself; all have
-- one status, which may be marked, and the height is positive.
pub record Marked (cosmos : Bool) (records : List Value) (f : BroadcastFailure) : Type 0 where
  pub hashes :
      All (λ v. (failed_hash cosmos v === normalized_tx_hash f.tx_hash_checked) ≡ true) records
  pub hash_given : is_empty (normalized_tx_hash f.tx_hash_checked) ≡ false
  pub ids : f.reservation_ids ≡ map (λ v. text_or_empty (get "reservation_id" v)) records
  pub all_named : All (λ v. is_empty (text_or_empty (get "reservation_id" v)) ≡ false) records
  pub height : 0 < f.checked_height
  pub status : String
  pub one_status : All (λ v. text_or_empty (get "status" v) ≡ status) records
  pub markable : IsMarkable f.lease_token records status

safe_height_positive : (v : Value) (height : ℕ) → safe_height v ≡ some height → 0 < height
unfolding safe_height
safe_height_positive v height h = elim (Option-cases (safe_nat (to_number v))) [
  | inl e ↦ ground (arith, e, h)
  | inr (n, e) ↦ ground (arith, e, h)
]

answered : (o : Option ℕ) (height : ℕ) → height_or_throw o ≡ ok height → o ≡ some height
answered none height h = cc
answered (some n) height h = cc

-- A list of texts with one member left by `unique` holds that text alone.
one_text :
    (f : Value → String) (s : String) (vs : List Value)
    → unique (map f vs) ≡ s ∷ []
    → All (λ v. f v ≡ s) vs
one_text f s vs h = every_member vs (λ k found.
    sym ((eq_iff s k).0 (only_member k (subst (λ l. has k l ≡ true) h (there k found)))))
  where
    there : (k : String) → has k (map f vs) ≡ true → has k (unique (map f vs)) ≡ true
    there k found = has-unique k (map f vs) ∙ found

    only_member : (k : String) → has k (s ∷ []) ≡ true → (s === k) ≡ true
    only_member k found = ground (arith, found)

    every_member :
        (ws : List Value) → ((k : String) → has k (map f ws) ≡ true → k ≡ s) → All (λ v. f v ≡ s) ws
    every_member [] h = tt
    every_member (w ∷ ws) h = (
      h (f w) (rw (eq_refl (f w)) refl),
      every_member ws (λ k found. h k (ground (arith, found))),
    )

common_status_lem :
    (records : List Value) (s : String)
    → common_reservation_status records ≡ ok s
    → unique (map (λ v. text_or_empty (get "status" v)) records) ≡ s ∷ []
unfolding common_reservation_status
common_status_lem records s h = only (unique (map (λ v. text_or_empty (get "status" v)) records)) h
  where
    only :
        (l : List String)
        → (elim l [
          | [] ↦ throw "failed transaction reservations have mixed statuses"
          | t ∷ [] ↦ ok t
          | t ∷ u ∷ us ↦ throw "failed transaction reservations have mixed statuses"
        ])
          ≡ ok s
        → l ≡ s ∷ []
    only [] h = cc
    only (t ∷ []) h = ap (λ (x : String). x ∷ []) (ok_injective h)
    only (t ∷ u ∷ us) h = cc

one_token_lem :
    (tokens : List String) (token : String)
    → one_token tokens ≡ ok token
    → (tokens ≡ token ∷ []) × (is_empty token ≡ false)
one_token_lem [] token h = cc
one_token_lem (t ∷ []) token h = elim (Bool-cases (is_empty t)) [
  | inl e ↦ absurd (refused (rw e at h))
  | inr e ↦
      let same = ok_injective (rw e at h) in
      (ap (λ (x : String). x ∷ []) same, subst (λ x. is_empty x ≡ false) same e)
]
  where
    refused :
        throw "ProofReady failed transaction recovery requires one operation-wide lease token"
        ≢ ok token
    refused p = cc
one_token_lem (t ∷ u ∷ us) token h = cc

failure_token-IsMarkable :
    (s : String) (records : List Value) (token : String)
    → failure_token s records ≡ ok token
    → IsMarkable token records s
unfolding failure_token
failure_token-IsMarkable s records token h = elim (Bool-cases (s === "ProofReady")) [
  | inl e ↦
      let (durable, h₁) = requiring (every durable_attempt records) _ _ (rw e at h) in
      let (same, given_) = one_token_lem _ token h₁ in
      subst (IsMarkable token records) (sym ((eq_iff s "ProofReady").0 e)) (
        proof_ready (every→All durable_attempt records durable) (one_text _ token records same)
          given_)
  | inr e ↦ elim (Bool-cases (s === "Submitted")) [
    | inl e₁ ↦
        subst (IsMarkable token records) (sym ((eq_iff s "Submitted").0 e₁))
          (was_submitted (sym (ok_injective (rw (e, e₁) at h))))
    | inr e₁ ↦ elim (Bool-cases (s === "Unknown")) [
      | inl e₂ ↦
          subst (IsMarkable token records) (sym ((eq_iff s "Unknown").0 e₂))
            (has_unknown_outcome (sym (ok_injective (rw (e, e₁, e₂) at h))))
      | inr e₂ ↦ absurd (unsupported _ (rw (e, e₁, e₂) at h))
    ]
  ]
]
  where
    unsupported : (text : String) → throw text ≢ ok token
    unsupported text p = cc

-- Where none is left out of the texts of a list, none is empty.
given_in_full :
    (f : Value → String) (vs : List Value)
    → length (given (map f vs)) ≡ length vs
    → (given (map f vs) ≡ map f vs) × All (λ v. is_empty (f v) ≡ false) vs
given_in_full f [] h = (refl, tt)
given_in_full f (v ∷ vs) h = elim (Bool-cases (is_empty (f v))) [
  | inl e ↦
      absurd (
        omega
          (arith, length-keep-le (λ s. not (is_empty s)) (map f vs), length-map vs f, rw e at h))
  | inr e ↦
      let (same, all) = given_in_full f vs (ground (arith, h, e)) in
      (rw e (ap (λ (l : List String). f v ∷ l) same), (e, all))
]

-- Whatever failure is marked is marked of all the records: each has the checked hash as its transaction's
-- and a reservation id, at a positive height, and all have one status, either Submitted or Unknown, or
-- ProofReady with a durable attempt and the one lease token of each.
pub replan_explicitly_failed-Marked :
    (manager : Manager) (records : List Value) (tx_hash checked_height metadata : Value)
    (cosmos : Bool) (f : BroadcastFailure)
    → replan_explicitly_failed_reservations manager records tx_hash checked_height metadata cosmos
      ≡ ok f
    → Marked cosmos records f
unfolding replan_explicitly_failed_reservations
replan_explicitly_failed-Marked manager records tx_hash checked_height metadata cosmos f h =
    let hash = normalized_tx_hash tx_hash in
    let (present, h₁) = requiring (not (is_missing manager) && ltb 0 (length records)) _ _ h in
    let (hashed, h₂) = requiring (has_hash cosmos hash records) _ _ h₁ in
    let (height, read, h₃) = >>=-eq-ok (height_or_throw (safe_height checked_height)) _ h₂ in
    let (status, common, h₄) = >>=-eq-ok (common_reservation_status records) _ h₃ in
    let (named_, h₅) = requiring (length (record_ids records) == length records) _ _ h₄ in
    let (token, given_, h₆) = >>=-eq-ok (failure_token status records) _ h₅ in
    let (can, h₇) = requiring (marks manager) _ _ h₆ in
    let (hash_is, all_have) =
      and-eq-true (not (is_empty hash)) (every (λ v. failed_hash cosmos v === hash) records)
        hashed in
    let (ids, all_named) =
      given_in_full (λ v. text_or_empty (get "reservation_id" v)) records
        (ground (arith, named_)) in
    let is_given : is_empty (normalized_tx_hash tx_hash) ≡ false = ground (arith, hash_is) in
    subst (Marked cosmos records) {x = failure records tx_hash height token metadata}
      (ok_injective h₇)
      (record {
        hashes = every→All (λ v. failed_hash cosmos v === hash) records all_have;
        hash_given = is_given;
        ids = ids;
        all_named = all_named;
        height =
            safe_height_positive checked_height height
              (answered (safe_height checked_height) height read);
        status = status;
        one_status = one_text _ status records (common_status_lem records status common);
        markable = failure_token-IsMarkable status records token given_;
      })

-- ===== src/Server/Fence.antt =====
-- What the fence of a signer account keeps out.
use clairveil_samples.Js.{Value, lookup, lookup-insert}
use clairveil_samples.Prelude.{
  Bool, List, Option, Result, String, arith, choose_cases, eq_iff, false, inl, inr, none, not, ok,
  refl, some, true, ◌&&◌, ◌-◌, ◌==◌, ◌≡◌, ◌⊎◌,
}
use clairveil_samples.Server.Serializer.{
  Account, Answer, Turn, after_answer, answers, begin_turn, fenced, has_unknown_outcome, is_unknown,
  leave_turn, normalized_account_key, reconcile_unknown_entry, rejects, resolves_outcome,
  turn_threw,
}

-- The outcome of an account is resolved by a reconciliation: one is given, and it answers so for the
-- evidence of the account.
pub record Resolves (a : Account) (reconcile : Option (Value → Answer)) : Type 0 where
  pub callback : Value → Answer
  pub given : reconcile ≡ some callback
  pub result : Value
  pub answered : callback a.unknown_evidence ≡ answers result
  pub resolved : resolves_outcome result ≡ true

answer-Resolves :
    (a : Account) (reconcile : Value → Answer) (answer : Answer)
    → reconcile a.unknown_evidence ≡ answer
    → a.outcome_unknown ≡ true
    → (after_answer a answer).0.outcome_unknown ≡ false
    → Resolves a (some reconcile)
answer-Resolves a reconcile (answers result) e u h = record {
  callback = reconcile;
  given = refl;
  result = result;
  answered = e;
  resolved = ground (arith, h, u);
}
answer-Resolves a reconcile (rejects cause) e u h = absurd (ground (arith, h, u))

reconciled-Resolves :
    (a : Account) (reconcile : Option (Value → Answer))
    → a.outcome_unknown ≡ true
    → (reconcile_unknown_entry a reconcile).0.outcome_unknown ≡ false
    → Resolves a reconcile
unfolding reconcile_unknown_entry
reconciled-Resolves a none u h = absurd (ground (arith, h, u))
reconciled-Resolves a (some reconcile) u h₀ =
    choose_cases (λ (r : Account × Bool). r.0.outcome_unknown ≡ false → Resolves a (some reconcile))
      a.outcome_unknown _ _
      (λ unknown_here h. answer-Resolves a reconcile (reconcile a.unknown_evidence) refl u h)
      (λ known_here h. absurd (ground (arith, u, known_here))) h₀

fenced_ok : (r : Account × Bool) → (fenced r).1 ≡ ok tt → r.0.outcome_unknown ≡ false
fenced_ok (a, resolved) h = ground (arith, h)

-- A turn begins only where no outcome of the account is unknown, or where a reconciliation resolved it.
pub begin_turn_fenced :
    (a : Account) (reconcile : Option (Value → Answer))
    → (begin_turn a reconcile).1 ≡ ok tt
    → a.outcome_unknown ≡ false ⊎ Resolves a reconcile
unfolding begin_turn
begin_turn_fenced a reconcile =
    choose_cases
      (λ (r : Account × Result (Unit {0})).
        r.1 ≡ ok tt → a.outcome_unknown ≡ false ⊎ Resolves a reconcile)
      a.outcome_unknown _ _
      (λ u h.
        inr (reconciled-Resolves a reconcile u (fenced_ok (reconcile_unknown_entry a reconcile) h)))
      (λ clear h. inl clear)

threw_is_unknown :
    (cause : String) (t : Turn) (a : Account)
    → t.submission_started ≡ true
    → t.submission_rejected ≡ false
    → (turn_threw cause t a).outcome_unknown ≡ true
unfolding turn_threw
threw_is_unknown cause t a crossed accepted = ground (arith, crossed, accepted)

left_unknown :
    (key : String) (a : Account) (accounts : List (String × Account))
    → a.outcome_unknown ≡ true
    → is_unknown (lookup key (leave_turn key a accounts)) ≡ true
unfolding leave_turn
left_unknown key a accounts u =
    choose_cases (λ (m : List (String × Account)). is_unknown (lookup key m) ≡ true)
      (a.pending - 1 == 0 && not a.outcome_unknown) _ _
      (λ forgotten. absurd (ground (arith, forgotten, u)))
      (λ stays. ground (
        arith,
        u,
        eq_iff key key,
        lookup-insert key key (record a { pending = a.pending - 1 }) accounts,
      ))

-- A turn whose submission crossed the boundary, was not rejected, and threw leaves its account fenced,
-- however many turns are pending.
pub thrown_turn_fences :
    (account_key : Value) (key : String) (cause : String) (t : Turn) (a : Account)
    (accounts : List (String × Account))
    → normalized_account_key account_key ≡ ok key
    → t.submission_started ≡ true
    → t.submission_rejected ≡ false
    → has_unknown_outcome account_key (leave_turn key (turn_threw cause t a) accounts) ≡ ok true
unfolding has_unknown_outcome
thrown_turn_fences account_key key cause t a accounts named crossed accepted =
    rw
      (
        named,
        left_unknown key (turn_threw cause t a) accounts
            (threw_is_unknown cause t a crossed accepted),
      )
      refl

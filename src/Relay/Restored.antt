-- ===== src/Relay/Restored.antt =====
-- Reading a stored state back: all of it, each snapshot with complete evidence, or nothing.
use mathlib.Core.Option
use clairveil_samples.Js.{Value, get, is_nullish, is_object, truthy}
use clairveil_samples.Prelude.{
  All, Bool, Bool-cases, List, Option, Option-cases, [], ap, arith, false, inl, inr, none, not,
  refl, some, subst, sym, true, ◌&&◌, ◌||◌, ◌↔◌, ◌∙◌, ◌∷◌, ◌≡◌, ◌⊎◌,
}
use clairveil_samples.Relay.Evidence.{IsKept, sanitize_relay_withdraw_snapshot-IsKept}
use clairveil_samples.Relay.Sanitize.{
  PersistedState, RelaySnapshot, array_or_empty, invalid_state, is_array, parse_saved, sanitize_all,
  sanitize_relay_withdraw_snapshot, with_pending,
}

abbrev IsKeptOption : Option RelaySnapshot → Type 0
IsKeptOption none = Unit
IsKeptOption (some s) = IsKept s

combined-eq-some :
    (first : Option RelaySnapshot) (rest : Option (List RelaySnapshot)) (kept : List RelaySnapshot)
    → (elim first [ none ↦ none | some k ↦ Option.map (◌∷◌ k) rest ]) ≡ some kept
    → (k : RelaySnapshot) × (ks : List RelaySnapshot) × (first ≡ some k)
      × (rest ≡ some ks)
      × (kept ≡ k ∷ ks)
combined-eq-some none rest kept h = cc
combined-eq-some (some k) none kept h = cc
combined-eq-some (some k) (some ks) kept h = (k, ks, refl, refl, ground arith)

some-combined :
    (first : Option RelaySnapshot) (rest : Option (List RelaySnapshot)) (k : RelaySnapshot)
    (ks : List RelaySnapshot)
    → first ≡ some k
    → rest ≡ some ks
    → (elim first [ none ↦ none | some j ↦ Option.map (◌∷◌ j) rest ]) ≡ some (k ∷ ks)
some-combined first rest k ks e f = rw (e, f) refl

-- Each stored snapshot is kept as it is once it is sanitized, in their order.
abbrev pub AllSanitized : List Value → List RelaySnapshot → Type 0
AllSanitized [] [] = Unit
AllSanitized (v ∷ vs) (k ∷ ks) = (sanitize_relay_withdraw_snapshot v ≡ some k) × AllSanitized vs ks
AllSanitized _ _ = ⊥

sanitize_all_iff :
    (vs : List Value) (kept : List RelaySnapshot)
    → (sanitize_all vs ≡ some kept) ↔ AllSanitized vs kept
unfolding sanitize_all
sanitize_all_iff [] [] = (λ h. tt, λ h. refl)
sanitize_all_iff [] (k ∷ ks) = (λ h. cc, λ h. absurd h)
sanitize_all_iff (v ∷ vs) [] = (
  λ h.
      let (k, ks, first, rest, split) =
        combined-eq-some (sanitize_relay_withdraw_snapshot v) (sanitize_all vs) [] h in
      cc,
  λ h. absurd h,
)
sanitize_all_iff (v ∷ vs) (k ∷ ks) = (
  λ h.
      let (j, js, first, rest, split) =
        combined-eq-some (sanitize_relay_withdraw_snapshot v) (sanitize_all vs) (k ∷ ks) h in
      let (head, tail) = cons_injective split in
      (first ∙ ap some (sym head), (sanitize_all_iff vs ks).0 (rest ∙ ap some (sym tail))),
  λ (first, rest). some-combined _ _ k ks first ((sanitize_all_iff vs ks).1 rest),
)
  where
    cons_injective :
        {k j : RelaySnapshot} {ks js : List RelaySnapshot}
        → ◌≡◌ {A = List RelaySnapshot} (k ∷ ks) (j ∷ js)
        → (k ≡ j) × (ks ≡ js)
    cons_injective h = (cc, cc)

AllSanitized-IsKept :
    (vs : List Value) (kept : List RelaySnapshot) → AllSanitized vs kept → All IsKept kept
AllSanitized-IsKept [] [] h = tt
AllSanitized-IsKept [] (k ∷ ks) h = absurd h
AllSanitized-IsKept (v ∷ vs) [] h = absurd h
AllSanitized-IsKept (v ∷ vs) (k ∷ ks) (first, rest) =
    (sanitize_relay_withdraw_snapshot-IsKept v k first, AllSanitized-IsKept vs ks rest)

-- The current snapshot: sanitized where one is stored, and none otherwise.
abbrev pub CurrentSanitized : Value → Option RelaySnapshot → Type 0
CurrentSanitized v none = truthy v ≡ false
CurrentSanitized v (some k) = (truthy v ≡ true) × (sanitize_relay_withdraw_snapshot v ≡ some k)

-- A stored object that can be read in full: its pending snapshots are an array or left out, and every
-- snapshot of it, pending or current, is accepted.
pub record IsWhole (saved : Value) (current : Option RelaySnapshot) (pending : List RelaySnapshot)
    : Type 0 where
  pub object_given : is_object saved ≡ true
  pub listed : (is_nullish (get "pending" saved) || is_array (get "pending" saved)) ≡ true
  pub all_pending : AllSanitized (array_or_empty (get "pending" saved)) pending
  pub the_current : CurrentSanitized (get "current" saved) current

abbrev valid_state : Option RelaySnapshot → List RelaySnapshot → PersistedState
valid_state current pending = record { valid = true; current = current; pending = pending }

with_pending_back :
    (v : Value) (kept : List RelaySnapshot) (current : Option RelaySnapshot)
    → CurrentSanitized v current
    → with_pending v kept ≡ valid_state current kept
with_pending_back v kept none h = rw h refl
with_pending_back v kept (some k) (stored, sanitized) = rw (stored, sanitized) refl

parse_whole :
    (saved : Value) (current : Option RelaySnapshot) (pending : List RelaySnapshot)
    → IsWhole saved current pending
    → parse_saved saved ≡ valid_state current pending
unfolding parse_saved
parse_whole saved current pending w =
    let shaped : (not (is_object saved)
          || not (is_nullish (get "pending" saved)) && not (is_array (get "pending" saved)))
        ≡ false =
      ground (arith, w.object_given, w.listed) in
    rw (shaped, (sanitize_all_iff _ pending).1 w.all_pending)
      (with_pending_back (get "current" saved) pending current w.the_current)

-- Either a state is all that was stored, or it is empty and not valid.
abbrev Read : Value → PersistedState → Type 0
Read saved s = ((s.valid ≡ true) × IsWhole saved s.current s.pending) ⊎ (s ≡ invalid_state)

with_pending-Read :
    (saved : Value) (kept : List RelaySnapshot)
    → is_object saved ≡ true
    → (is_nullish (get "pending" saved) || is_array (get "pending" saved)) ≡ true
    → AllSanitized (array_or_empty (get "pending" saved)) kept
    → Read saved (with_pending (get "current" saved) kept)
with_pending-Read saved kept given_ listed all = elim (Bool-cases (truthy (get "current" saved))) [
  | inl stored ↦ elim (Option-cases (sanitize_relay_withdraw_snapshot (get "current" saved))) [
    | inl refused ↦ rw (stored, refused) (inr refl)
    | inr (s, sanitized) ↦
        rw (stored, sanitized)
          (inl (
            refl,
            record {
              object_given = given_;
              listed = listed;
              all_pending = all;
              the_current = (stored, sanitized);
            },
          ))
  ]
  | inr absent ↦ rw absent (
      inl (
        refl,
        record { object_given = given_; listed = listed; all_pending = all; the_current = absent },
      ))
]

parse_saved-Read : (saved : Value) → Read saved (parse_saved saved)
unfolding parse_saved
parse_saved-Read saved =
    elim (Bool-cases (
      not (is_object saved)
      || not (is_nullish (get "pending" saved)) && not (is_array (get "pending" saved)))) [
        | inl misshapen ↦ rw misshapen (inr refl)
        | inr shaped ↦ elim (Option-cases (sanitize_all (array_or_empty (get "pending" saved)))) [
          | inl refused ↦ rw (shaped, refused) (inr refl)
          | inr (kept, sanitized) ↦
              rw (shaped, sanitized)
                (with_pending-Read saved kept (ground (arith, shaped)) (ground (arith, shaped))
                  ((sanitize_all_iff _ kept).0 sanitized))
        ]
      ]

-- Reading a stored object gives a valid state exactly if all of it is accepted, and the state then holds
-- every pending snapshot in their order, and the current one where one is stored, each as it is once it
-- is sanitized, with complete evidence. Otherwise the state is empty and not valid.
pub parse_saved-IsWhole :
    (saved : Value) (current : Option RelaySnapshot) (pending : List RelaySnapshot)
    → ((parse_saved saved ≡ record { valid = true; current = current; pending = pending })
        ↔ IsWhole saved current pending)
      × (IsWhole saved current pending → All IsKept pending × IsKeptOption current)
      × ((parse_saved saved).valid ≡ false → parse_saved saved ≡ invalid_state)
parse_saved-IsWhole saved current pending = (
  (λ h. is_whole h, λ w. parse_whole saved current pending w),
  λ w. (
    AllSanitized-IsKept _ pending w.all_pending,
    kept_current (get "current" saved) current w.the_current,
  ),
  λ h. elim (parse_saved-Read saved) [ inl (valid, w) ↦ absurd (apart valid h) | inr e ↦ e ],
)
  where
    apart : {b : Bool} → b ≡ true → b ≡ false → ⊥
    apart p q = cc

    is_whole : parse_saved saved ≡ valid_state current pending → IsWhole saved current pending
    is_whole h = elim (subst (Read saved) h (parse_saved-Read saved)) [
      | inl (valid, w) ↦ w
      | inr e ↦ absurd (apart refl (ap (λ (s : PersistedState). s.valid) e))
    ]

    kept_current : (v : Value) (o : Option RelaySnapshot) → CurrentSanitized v o → IsKeptOption o
    kept_current v none h = tt
    kept_current v (some k) (stored, sanitized) =
        sanitize_relay_withdraw_snapshot-IsKept v k sanitized

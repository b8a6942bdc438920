-- ===== src/Prelude/Tests.antt =====
-- Boolean tests on the native numbers and on texts, the conditional, and results that may throw.
use Prim.Native.Nat.{ℕ, ◌≤◌, ◌<◌, compare, Ordering}
use Prim.Native.String.{String}
use mathlib.Core.Path.{◌≡◌, refl}
use mathlib.Core.Logic.{◌↔◌, ◌⊎◌, inl, inr}
use mathlib.Core.Bool.{Bool, true, false, ◌&&◌}
use mathlib.Core.Option.{Option, none, some}
use native.Mathlib.Omega.{arith}
use text.Mathlib.Text.{◌==◌ as str_eq}

abbrev pub ltb : ℕ → ℕ → Bool
ltb a b = elim (compare a b) [ Ordering.lt ↦ true | _ ↦ false ]

abbrev pub leb : ℕ → ℕ → Bool
leb a b = elim (compare a b) [ Ordering.gt ↦ false | _ ↦ true ]

infix 50 ◌==◌ ◌===◌
abbrev pub ◌==◌ : ℕ → ℕ → Bool
a == b = elim (compare a b) [ Ordering.eq ↦ true | _ ↦ false ]

-- Equality of texts.
abbrev pub ◌===◌ : String → String → Bool
s === t = str_eq s t

infix 1 if◌then◌else◌
abbrev pub if◌then◌else◌ {ℓ} : {A : Type ℓ} → Bool → A → A → A
if true then x else y = x
if false then x else y = y

pub ltb→lt : (a b : ℕ) → ltb a b ≡ true → a < b
ltb→lt a b h = ground arith

pub lt→ltb : (a b : ℕ) → a < b → ltb a b ≡ true
lt→ltb a b h = ground arith

pub leb→le : (a b : ℕ) → leb a b ≡ true → a ≤ b
leb→le a b h = ground arith

pub ==_iff : (a b : ℕ) → ((a == b) ≡ true) ↔ (a ≡ b)
==_iff a b = ground arith

pub ruleset tests = (arith, ltb→lt, lt→ltb, leb→le)

pub Bool-cases : (b : Bool) → (b ≡ true) ⊎ (b ≡ false)
Bool-cases true = inl refl
Bool-cases false = inr refl

pub Option-cases {ℓ} : {A : Type ℓ} (o : Option A) → (o ≡ none) ⊎ ((a : A) × (o ≡ some a))
Option-cases none = inl refl
Option-cases (some a) = inr (a, refl)

pub and-eq-true : (a b : Bool) → (a && b) ≡ true → (a ≡ true) × (b ≡ true)
and-eq-true a b h = ground arith

-- A call that returns a value, or throws an `Error` with a message.
pub data Result {ℓ} (A : Type ℓ) : Type ℓ where
  ok : A → Result A
  throw : String → Result A

infixl 5 ◌>>=◌ ◌>>◌
-- What is called next is not called after a throw.
abbrev pub ◌>>=◌ {ℓ κ} : {A : Type ℓ} {B : Type κ} → Result A → (A → Result B) → Result B
throw problem >>= next = throw problem
ok value >>= next = next value

-- `if (!test) throw new Error(problem)`
abbrev pub require : Bool → String → Result (Unit {0})
require false problem = throw problem
require true problem = ok tt

abbrev pub ◌>>◌ {ℓ} : {B : Type ℓ} → Result (Unit {0}) → Result B → Result B
checked >> rest = checked >>= λ _. rest

pub >>=-eq-ok {ℓ κ} :
    {A : Type ℓ} {B : Type κ} (call : Result A) (next : A → Result B) {end : B}
    → (call >>= next) ≡ ok end
    → (value : A) × (call ≡ ok value) × (next value ≡ ok end)
>>=-eq-ok (throw problem) next h = cc
>>=-eq-ok (ok value) next h = (value, refl, h)

pub ok_injective {ℓ} : {A : Type ℓ} {a b : A} → ok a ≡ ok b → a ≡ b
ok_injective h = cc

-- A checked call that returned passed its check.
pub requiring {ℓ} :
    {A : Type ℓ} (test : Bool) (problem : String) (call : Result A) {a : A}
    → (require test problem >> call) ≡ ok a
    → (test ≡ true) × (call ≡ ok a)
requiring true problem call h = (refl, h)
requiring false problem call h = cc

pub require-eq-ok : (test : Bool) (problem : String) → require test problem ≡ ok tt → test ≡ true
require-eq-ok true problem h = refl
require-eq-ok false problem h = cc

pub >>-eq-ok {ℓ} :
    {A : Type ℓ} (checked : Result (Unit {0})) (rest : Result A) {a : A}
    → (checked >> rest) ≡ ok a
    → (checked ≡ ok tt) × (rest ≡ ok a)
>>-eq-ok (ok tt) rest h = (refl, h)
>>-eq-ok (throw problem) rest h = cc

pub result_cases {ℓ} :
    {A : Type ℓ} (call : Result A)
    → ((problem : String) × (call ≡ throw problem)) ⊎ ((value : A) × (call ≡ ok value))
result_cases (throw problem) = inl (problem, refl)
result_cases (ok value) = inr (value, refl)

-- A conditional that proofs may keep shut.
unfoldable pub choose {ℓ} : {A : Type ℓ} → Bool → A → A → A
choose true x y = x
choose false x y = y

-- What both branches have, the conditional has.
pub choose_keeps {ℓ κ} :
    {A : Type ℓ} (P : A → Type κ) (b : Bool) (x y : A) → P x → P y → P (choose b x y)
unfolding choose
choose_keeps P true x y p q = p
choose_keeps P false x y p q = q

pub choose_cases {ℓ κ} :
    {A : Type ℓ} (P : A → Type κ) (b : Bool) (x y : A)
    → (b ≡ true → P x)
    → (b ≡ false → P y)
    → P (choose b x y)
unfolding choose
choose_cases P true x y p q = p refl
choose_cases P false x y p q = q refl

-- ===== src/Js/Bits.antt =====
-- The bitwise operators of the program, as arithmetic.
use Prim.Native.Nat.{bit_and, bit_or, bit_or-bitwise, digits, max}
use clairveil_samples.Prelude.{
  ==_iff, Bool, Bool-cases, and-eq-true, ap, arith, false, inl, inr, ltb, ltb→lt, refl, subst, suc,
  true, zero, ℕ, ◌%◌, ◌&&◌, ◌*◌, ◌+◌, ◌/◌, ◌<◌, ◌==◌, ◌^◌, ◌∙◌, ◌≡◌, ◌≤◌,
}
use native.Mathlib.Nat.{mul-le-mul_right, pow-suc}
use native.Mathlib.Numerals.{towards_suc}

-- A test that every number below a bound passes.
abbrev pub all_under : ℕ → (ℕ → Bool) → Bool
all_under zero test = true
all_under (suc n) test = all_under n test && test n

top : (x n : ℕ) → x < suc n → ltb x n ≡ false → n ≡ x
top x n lt h = ground arith

pub all_under_holds :
    (n : ℕ) (test : ℕ → Bool) → all_under n test ≡ true → (x : ℕ) → x < n → test x ≡ true
all_under_holds zero test h x lt = absurd (omega arith)
all_under_holds (suc n) test h x lt = elim (Bool-cases (ltb x n)) [
  | inl e ↦ all_under_holds n test (and-eq-true _ _ h).0 x (ltb→lt x n e)
  | inr e ↦ subst (λ k. test k ≡ true) (top x n lt e) (and-eq-true _ _ h).1
]

abbrev splits : ℕ → Bool
splits b = (bit_and b 0x7f == b % 128) && (bit_and b 0x80 == b / 128 * 128)

byte_groups : all_under 256 splits ≡ true
byte_groups = refl

-- `byte & 0x7f` and `byte & 0x80`
pub byte_parts : (b : ℕ) → b < 256 → (bit_and b 0x7f ≡ b % 128) × (bit_and b 0x80 ≡ b / 128 * 128)
byte_parts b h =
    let (low, top) = and-eq-true _ _ (all_under_holds 256 splits byte_groups b h) in
    ((==_iff _ _).0 low, (==_iff _ _).0 top)

double_pow : (s : ℕ) → 2 ^ suc s ≡ 2 ^ s * 2
double_pow s = pow-suc 2 s

pub pow_seven : (s : ℕ) → 2 ^ (s + 7) ≡ 128 * 2 ^ s
pow_seven s = simp towards_suc (omega arith)

at_most_127 : (group : ℕ) → group < 128 → group ≤ 127
at_most_127 group h = omega arith

low_and_rest : (n : ℕ) → n ≡ n % 128 + 128 * (n / 128)
low_and_rest n = omega arith

-- Seven bits put above the bits of `value`.
pub add_seven :
    (value s group : ℕ) → value < 2 ^ s → group < 128 → value + group * 2 ^ s < 2 ^ (s + 7)
add_seven value s group h k =
    omega (arith, pow_seven s, mul-le-mul_right (2 ^ s) (at_most_127 group k))

pub seven_apart : (n s : ℕ) → n * 2 ^ s ≡ n % 128 * 2 ^ s + n / 128 * 2 ^ (s + 7)
seven_apart n s =
    omega
      (arith, ap (λ (t : ℕ). n / 128 * t) (pow_seven s), ap (λ (t : ℕ). t * 2 ^ s) (low_and_rest n))

double_shift : (g s : ℕ) → g * 2 ^ suc s ≡ g * 2 ^ s * 2
double_shift g s = omega (arith, ap (λ (t : ℕ). g * t) (double_pow s))

halved : (x : ℕ) → (x * 2 / 2 ≡ x) × (x * 2 % 2 ≡ 0)
halved x = omega arith

-- Bits below position `s` and bits from `s` on have none in common.
disjoint_digits :
    (n a g s : ℕ) → a ≤ n → a < 2 ^ s → digits (λ b. b) max n a (g * 2 ^ s) ≡ a + g * 2 ^ s
disjoint_digits zero zero g s p q = omega arith
disjoint_digits zero (suc a) g s p q = absurd (omega arith)
disjoint_digits (suc n) zero g s p q = omega arith
disjoint_digits (suc n) (suc a) g zero p q = absurd (omega arith)
disjoint_digits (suc n) (suc a) g (suc s) p q = rw (double_shift g s) (
    rw (halved (g * 2 ^ s)).0 (
      rw (halved (g * 2 ^ s)).1 (
        omega
          (arith, disjoint_digits n (suc a / 2) g s (omega arith) (ground (arith, double_pow s))))))

-- `a | g << s`, where `a` has no bit from `s` on.
pub bit_or_shifted : (a g s : ℕ) → a < 2 ^ s → bit_or a (g * 2 ^ s) ≡ a + g * 2 ^ s
bit_or_shifted a g s h = bit_or-bitwise a (g * 2 ^ s) ∙ disjoint_digits a a g s (omega arith) h

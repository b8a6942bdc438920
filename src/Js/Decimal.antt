-- ===== src/Js/Decimal.antt =====
-- What `to_decimal` prints is a canonical decimal that reads back as the same number.
use Prim.Native.String.{[], ◌∷◌}
use Prim.Native.Char.{code}
use clairveil_samples.Js.Text.{
  decimal_after, decimal_before, digit, every_char, is_digit, is_positive_decimal, is_space,
  to_decimal, trim, trim_end,
}
use clairveil_samples.Prelude.{
  ==_iff, Bool, Bool-cases, String, ap, arith, false, inl, inr, ltb, ltb→lt, not, refl, suc, true,
  zero, ℕ, ◌%◌, ◌&&◌, ◌+◌, ◌/◌, ◌<◌, ◌==◌, ◌∙◌, ◌≡◌,
}

digits_ok : ℕ → Bool
digits_ok zero = true
digits_ok (suc d) = (code (digit d) == d + b'0') && (not (is_space (code (digit d))) && digits_ok d)

digits_ok-suc :
    (d : ℕ)
    → digits_ok (suc d) ≡ true
    → (code (digit d) ≡ d + b'0') × (is_space (code (digit d)) ≡ false) × (digits_ok d ≡ true)
unfolding digits_ok
digits_ok-suc d h = ground arith

digits_ok-at :
    (n d : ℕ)
    → digits_ok n ≡ true
    → d < n
    → (code (digit d) ≡ d + b'0') × (is_space (code (digit d)) ≡ false)
digits_ok-at zero d h lt = absurd (omega arith)
digits_ok-at (suc n) d h lt =
    let (code_ok, plain, rest) = digits_ok-suc n h in
    elim (Bool-cases (d == n)) [
      | inl same ↦ rw ((==_iff d n).0 same) (code_ok, plain)
      | inr other ↦ digits_ok-at n d rest (ground arith)
    ]

digit_table : digits_ok 10 ≡ true
unfolding digits_ok is_space
digit_table = refl

code-digit : (d : ℕ) → d < 10 → code (digit d) ≡ d + b'0'
code-digit d lt = (digits_ok-at 10 d digit_table lt).0

-- A text of digits only, none of them white space.
abbrev IsDigits : String → Type 0
IsDigits [] = Unit
IsDigits (c ∷ s) = (is_digit (code c) ≡ true) × IsDigits s

is_digit-digit : (d : ℕ) → d < 10 → is_digit (code (digit d)) ≡ true
is_digit-digit d lt = rw (code-digit d lt) (ground arith)

not_space : (c : ℕ) → is_digit c ≡ true → is_space c ≡ false
unfolding is_space
not_space c h = ground arith

trim_end_digits : (s : String) → IsDigits s → trim_end s ≡ s
unfolding trim_end
trim_end_digits [] h = refl
trim_end_digits (c ∷ s) (d, h) = rw (trim_end_digits s h, not_space (code c) d) (ground arith)

trim_digits : (s : String) → IsDigits s → trim s ≡ s
unfolding trim
trim_digits [] h = refl
trim_digits (c ∷ s) (d, h) = rw (not_space (code c) d) (trim_end_digits (c ∷ s) (d, h))

every_char_digits : (s : String) → IsDigits s → every_char is_digit s ≡ true
unfolding every_char
every_char_digits [] h = refl
every_char_digits (c ∷ s) (d, h) = rw d (every_char_digits s h)

decimal_before-IsDigits :
    (fuel n : ℕ) (s : String) → IsDigits s → IsDigits (decimal_before fuel n s)
unfolding decimal_before
decimal_before-IsDigits zero n s h = h
decimal_before-IsDigits (suc fuel) n s h = elim (Bool-cases (ltb n 10)) [
  | inl small ↦ rw small (is_digit-digit n (ltb→lt n 10 small), h)
  | inr large ↦ rw large (
      decimal_before-IsDigits fuel (n / 10) (digit (n % 10) ∷ s)
        (is_digit-digit (n % 10) (omega arith), h))
]

decimal_after-before :
    (fuel n : ℕ) (s : String)
    → n < fuel
    → decimal_after 0 (decimal_before fuel n s) ≡ decimal_after n s
unfolding decimal_before decimal_after
decimal_after-before zero n s lt = absurd (omega arith)
decimal_after-before (suc fuel) n s lt = elim (Bool-cases (ltb n 10)) [
  | inl small ↦
      rw small (ap (λ (k : ℕ). decimal_after k s) (omega (arith, code-digit n (ltb→lt n 10 small))))
  | inr large ↦ rw large (
      decimal_after-before fuel (n / 10) (digit (n % 10) ∷ s) (ground arith)
      ∙ ap (λ (k : ℕ). decimal_after k s) (omega (arith, code-digit (n % 10) (omega arith))))
]

positive_before :
    (fuel n : ℕ) (s : String)
    → n < fuel
    → 0 < n
    → IsDigits s
    → is_positive_decimal (decimal_before fuel n s) ≡ true
unfolding decimal_before is_positive_decimal
positive_before zero n s lt pos h = absurd (omega arith)
positive_before (suc fuel) n s lt pos h = elim (Bool-cases (ltb n 10)) [
  | inl small ↦
      rw (small, code-digit n (ltb→lt n 10 small)) (rw (every_char_digits s h) (ground arith))
  | inr large ↦ rw large (
      positive_before fuel (n / 10) (digit (n % 10) ∷ s) (ground arith) (ground arith)
        (is_digit-digit (n % 10) (omega arith), h))
]

pub trim-to_decimal : (n : ℕ) → trim (to_decimal n) ≡ to_decimal n
unfolding to_decimal
trim-to_decimal n = trim_digits _ (decimal_before-IsDigits (suc n) n [] tt)

pub is_positive_decimal-to_decimal : (n : ℕ) → 0 < n → is_positive_decimal (to_decimal n) ≡ true
unfolding to_decimal
is_positive_decimal-to_decimal n pos = positive_before (suc n) n [] (omega arith) pos tt

pub decimal_after-to_decimal : (n : ℕ) → decimal_after 0 (to_decimal n) ≡ n
unfolding to_decimal decimal_after
decimal_after-to_decimal n = decimal_after-before (suc n) n [] (omega arith)

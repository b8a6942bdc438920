-- ===== src/Js/Trims.antt =====
-- Trimming and lower-casing a second time change nothing.
use Prim.Native.String.{String, [], ◌∷◌}
use Prim.Native.Char.{Char, code}
use clairveil_samples.Js.Text.{
  every_char, is_empty, is_hex, is_space, lower_char, to_lower_case, trim, trim_end, trim_start,
}
use clairveil_samples.Prelude.{
  Bool, Bool-cases, and-eq-true, ap, arith, false, if◌then◌else◌, inl, inr, leb, refl, subst, sym,
  true, ℕ, ◌&&◌, ◌≡◌,
}

trim_end_idem : (s : String) → trim_end (trim_end s) ≡ trim_end s
unfolding trim_end
trim_end_idem [] = refl
trim_end_idem (c ∷ s) = elim (Bool-cases (is_empty (trim_end s) && is_space (code c))) [
  | inl e ↦ rw e refl
  | inr e ↦ rw e (rw (trim_end_idem s) (rw e refl))
]

plain_first : (b : Bool) → (b && false) ≡ false
plain_first b = ground arith

trim_plain :
    (c : Char) (s : String) → is_space (code c) ≡ false → trim (c ∷ trim_end s) ≡ c ∷ trim_end s
unfolding trim trim_start trim_end
trim_plain c s h =
    rw h (rw (trim_end_idem s) (rw h (rw (plain_first (is_empty (trim_end s))) refl)))

trim_spaced : (c : Char) (s : String) → is_space (code c) ≡ true → trim (c ∷ s) ≡ trim s
unfolding trim trim_start
trim_spaced c s h = rw h refl

trim_unspaced : (c : Char) (s : String) → is_space (code c) ≡ false → trim (c ∷ s) ≡ c ∷ trim_end s
unfolding trim trim_start trim_end
trim_unspaced c s h = rw h (rw h (rw (plain_first (is_empty (trim_end s))) refl))

pub trim-trim : (s : String) → trim (trim s) ≡ trim s
trim-trim [] = unfold trim trim_start trim_end in refl
trim-trim (c ∷ s) = elim (Bool-cases (is_space (code c))) [
  | inl e ↦ subst (λ t. trim t ≡ t) (sym (trim_spaced c s e)) (trim-trim s)
  | inr e ↦ subst (λ t. trim t ≡ t) (sym (trim_unspaced c s e)) (trim_plain c s e)
]

no_capital : (c : ℕ) → is_hex c ≡ true → (leb b'A' c && leb c b'Z') ≡ false
no_capital c h = ground arith

pub to_lower_case-hex : (s : String) → every_char is_hex s ≡ true → to_lower_case s ≡ s
unfolding to_lower_case lower_char every_char
to_lower_case-hex [] h = refl
to_lower_case-hex (c ∷ s) h =
    let (first, rest) = and-eq-true (is_hex (code c)) (every_char is_hex s) h in
    rw (no_capital (code c) first) (ap (λ (t : String). c ∷ t) (to_lower_case-hex s rest))

hex_space : (c : ℕ) → is_hex c ≡ true → is_space c ≡ false
unfolding is_space
hex_space c h = ground arith

shut : (b : Bool) (c : Char) (s : String) → (if b && false then [] else c ∷ s) ≡ c ∷ s
shut true c s = refl
shut false c s = refl

trim_end-hex : (s : String) → every_char is_hex s ≡ true → trim_end s ≡ s
unfolding trim_end every_char
trim_end-hex [] h = refl
trim_end-hex (c ∷ s) h =
    let (hex, rest) = and-eq-true _ _ h in
    rw (trim_end-hex s rest) (rw (hex_space (code c) hex) (shut (is_empty s) c s))

pub trim-hex : (s : String) → every_char is_hex s ≡ true → trim s ≡ s
unfolding trim trim_start
trim-hex [] h = refl
trim-hex (c ∷ s) h =
    rw
      (hex_space (code c)
        (and-eq-true (is_hex (code c)) (every_char is_hex s) (unfold every_char in h)).0)
      (trim_end-hex (c ∷ s) h)

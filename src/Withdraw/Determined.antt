-- ===== src/Withdraw/Determined.antt =====
-- What an included Cosmos transaction that matches the prepared withdrawal has in common with any
-- other: public/relay-withdraw-reconciliation.js.
use Prim.Native.String.{String, ◌∷◌}
use Prim.Native.Char.{Char, code}
use clairveil_samples.Js.{
  Value, all_under, all_under_holds, every_char, is_hex, string, text_of, trim, trim-hex,
}
use clairveil_samples.Prelude.{
  ==_iff, >>-eq-ok, All, Bool, List, and-eq-true, ap, arith, eq_iff, if◌then◌else◌, inl, inr, leb,
  ok, refl, require, require-eq-ok, result_cases, sym, true, ℕ, ◌%◌, ◌&&◌, ◌-◌, ◌/◌, ◌<◌, ◌===◌,
  ◌==◌, ◌>>=◌, ◌∙◌, ◌≡◌,
}
use clairveil_samples.Withdraw.Match.{
  assert_equal, bytes_hex, cosmos_message_matches, hex_char, mismatch, normalized_hex,
}
use clairveil_samples.Withdraw.Message.{WithdrawMessage}
use mathlib.Core.Path.{ap₂}

abbrev pub IsByte : ℕ → Type 0
IsByte b = b < 256

digit_of : ℕ → ℕ
digit_of c = if leb b'a' c then c - 87 else c - b'0'

abbrev reads_digit : ℕ → Bool
reads_digit d = is_hex (code (hex_char d)) && digit_of (code (hex_char d)) == d

digit_table : all_under 16 reads_digit ≡ true
unfolding digit_of
digit_table = refl

digit_read :
    (d : ℕ) → d < 16 → (is_hex (code (hex_char d)) ≡ true) × (digit_of (code (hex_char d)) ≡ d)
digit_read d h =
    let (hex, value) = and-eq-true _ _ (all_under_holds 16 reads_digit digit_table d h) in
    (hex, (==_iff _ _).0 value)

byte_digits : (b : ℕ) → IsByte b → (b / 16 < 16) × (b % 16 < 16)
byte_digits b h = omega arith

bytes_hex-is_hex : (bytes : List ℕ) → All IsByte bytes → every_char is_hex (bytes_hex bytes) ≡ true
unfolding bytes_hex every_char
bytes_hex-is_hex List.[] h = refl
bytes_hex-is_hex (List.◌∷◌ b bs) (h, hs) =
    let (up, down) = byte_digits b h in
    rw ((digit_read (b / 16) up).0) (rw ((digit_read (b % 16) down).0) (bytes_hex-is_hex bs hs))

head_char : {c d : Char} {s t : String} → c ∷ s ≡ d ∷ t → (c ≡ d) × (s ≡ t)
head_char h = (cc, cc)

same_byte :
    (a b : ℕ)
    → IsByte a
    → IsByte b
    → hex_char (a / 16) ≡ hex_char (b / 16)
    → hex_char (a % 16) ≡ hex_char (b % 16)
    → a ≡ b
same_byte a b h k p q = omega (
  arith,
  same_digit (a / 16) (b / 16) (byte_digits a h).0 (byte_digits b k).0 p,
  same_digit (a % 16) (b % 16) (byte_digits a h).1 (byte_digits b k).1 q,
)
  where
    same_digit : (d e : ℕ) → d < 16 → e < 16 → hex_char d ≡ hex_char e → d ≡ e
    same_digit d e h k p =
        sym (digit_read d h).1 ∙ ap (λ (c : Char). digit_of (code c)) p ∙ (digit_read e k).1

pub bytes_hex_injective :
    (xs ys : List ℕ) → All IsByte xs → All IsByte ys → bytes_hex xs ≡ bytes_hex ys → xs ≡ ys
unfolding bytes_hex
bytes_hex_injective List.[] List.[] h k e = refl
bytes_hex_injective List.[] (List.◌∷◌ y ys) h k e = cc
bytes_hex_injective (List.◌∷◌ x xs) List.[] h k e = cc
bytes_hex_injective (List.◌∷◌ x xs) (List.◌∷◌ y ys) (h, hs) (k, ks) e =
    let (up, e₁) = head_char e in
    let (down, e₂) = head_char e₁ in
    ap₂ (λ (b : ℕ) (bs : List ℕ). List.◌∷◌ b bs) (same_byte x y h k up down)
      (bytes_hex_injective xs ys hs ks e₂)

-- A message of bytes.
pub record IsBytes (m : WithdrawMessage) : Type 0 where
  pub proof : All IsByte m.proof
  pub root : All IsByte m.root
  pub nullifier : All IsByte m.nullifier

same_hex :
    (prepared : Value) (label problem : String) (bytes other : List ℕ)
    → All IsByte bytes
    → All IsByte other
    → (normalized_hex prepared label >>= λ hex.
        assert_equal (string (bytes_hex bytes)) (string hex) problem)
      ≡ ok tt
    → (normalized_hex prepared label >>= λ hex.
        assert_equal (string (bytes_hex other)) (string hex) problem)
      ≡ ok tt
    → bytes ≡ other
unfolding assert_equal text_of
same_hex prepared label problem bytes other h k e f =
    elim (result_cases (normalized_hex prepared label)) [
      | inl (thrown, c) ↦ ground (arith, c, e)
      | inr (hex, c) ↦ bytes_hex_injective bytes other h k (
          sym (trim-hex (bytes_hex bytes) (bytes_hex-is_hex bytes h))
          ∙ equal (bytes_hex bytes) hex (rw c at e)
          ∙ sym (equal (bytes_hex other) hex (rw c at f))
          ∙ trim-hex (bytes_hex other) (bytes_hex-is_hex other k))
    ]
  where
    equal :
        (s t : String) → require (trim s === trim t) (mismatch problem) ≡ ok tt → trim s ≡ trim t
    equal s t h = (eq_iff (trim s) (trim t)).0 (require-eq-ok _ _ h)

-- Two withdrawal messages that match one prepared withdrawal have the same proof, the same root and the
-- same nullifier.
pub matching_messages_agree :
    (m n : WithdrawMessage) (prepared : Value)
    → IsBytes m
    → IsBytes n
    → cosmos_message_matches m prepared ≡ ok tt
    → cosmos_message_matches n prepared ≡ ok tt
    → (m.proof ≡ n.proof) × (m.root ≡ n.root) × (m.nullifier ≡ n.nullifier)
unfolding cosmos_message_matches
matching_messages_agree m n prepared h k e f =
    let (e₁, e₂) = >>-eq-ok _ _ e in
    let (f₁, f₂) = >>-eq-ok _ _ f in
    let (e₃, e₄) = >>-eq-ok _ _ e₂ in
    let (f₃, f₄) = >>-eq-ok _ _ f₂ in
    let (e₅, _) = >>-eq-ok _ _ e₄ in
    let (f₅, _) = >>-eq-ok _ _ f₄ in
    (
      same_hex _ _ _ m.proof n.proof h.proof k.proof e₁ f₁,
      same_hex _ _ _ m.root n.root h.root k.root e₃ f₃,
      same_hex _ _ _ m.nullifier n.nullifier h.nullifier k.nullifier e₅ f₅,
    )

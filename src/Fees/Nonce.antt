-- ===== src/Fees/Nonce.antt =====
-- public/evm-wallet-nonce.js: the nonce that a transaction is submitted with.
use Prim.Native.String.{String, [], ◌∷◌, char_at, ◌++◌ as str_append}
use Prim.Native.Char.{code}
use clairveil_samples.Js.{
  Value, every_char, get, hex_after, is_empty, is_hex, is_nullish, set_own, size, string, strip_0x,
  text_or_empty, to_lower_case,
}
use clairveil_samples.Prelude.{
  >>-eq-ok, >>=-eq-ok, Bool, Option, Result, if◌then◌else◌, leb, leb→le, ltb, none, not, ok,
  ok_injective, require, requiring, some, subst, suc, throw, true, zero, ℕ, ◌%◌, ◌&&◌, ◌/◌, ◌===◌,
  ◌==◌, ◌>>=◌, ◌>>◌, ◌≡◌, ◌≤◌,
}

-- Digits that are missing, or that begin with a zero they could do without.
unfoldable pub is_padded : String → Bool
is_padded [] = true
is_padded (c ∷ s) = code c == b'0' && not (is_empty s)

-- /^0x(?:0|[1-9a-f][0-9a-f]*)$/i, with the quantity
unfoldable pub hex_nonce : String → Option ℕ
unfolding every_char hex_after
hex_nonce text =
    let lower = to_lower_case text in
    let digits = strip_0x lower in
    if not (digits === lower) && not (is_padded digits) && every_char is_hex digits
    then some (hex_after 0 digits)
    else none

abbrev nonce_or_throw : Option ℕ → Result ℕ
nonce_or_throw none = throw "EVM nonce must be a canonical hex quantity"
nonce_or_throw (some n) = ok n

-- nonceQuantity
unfoldable pub nonce_quantity : Value → Result ℕ
nonce_quantity (string s) = nonce_or_throw (hex_nonce s)
nonce_quantity _ = throw "EVM nonce must be a canonical hex quantity"

-- /^0x[0-9a-f]{40}$/i, of the account or the empty text
unfoldable pub is_account : Value → Bool
unfolding every_char size
is_account v =
    let lower = to_lower_case (text_or_empty v) in
    let digits = strip_0x lower in
    not (digits === lower) && every_char is_hex digits && size digits == 40

-- What the node of the account answers: to the two checks of the network, and with the number of
-- transactions that are included and that are pending.
pub record NodeAnswers : Type 0 where
  pub network_before : Result (Unit {0})
  pub latest : Result Value
  pub pending : Result Value
  pub network_after : Result (Unit {0})

abbrev nonce_error : String
nonce_error =
    "The prepared transaction nonce is already used or pending. Prepare a new request; the wallet was not called."

-- The nonce of the transaction where it has one, and what is pending otherwise.
abbrev pub wanted_nonce : Value → ℕ → Result ℕ
wanted_nonce nonce pending = if is_nullish nonce then ok pending else nonce_quantity nonce

abbrev hex_digit_char : ℕ → String
hex_digit_char d = char_at "0123456789abcdef" d ∷ []

-- n.toString(16); more fuel than digits is given.
unfoldable pub hex_digits_before : ℕ → ℕ → String → String
hex_digits_before zero n s = s
hex_digits_before (suc fuel) n s =
    let rest = hex_digits_before fuel (n / 16) (str_append (hex_digit_char (n % 16)) s) in
    if ltb n 16 then str_append (hex_digit_char n) s else rest

-- The nonce that withPublicEvmNonce settles on
unfoldable pub public_evm_nonce : NodeAnswers → Value → Result ℕ
public_evm_nonce node transaction =
    require (is_account (get "from" transaction)) "EVM nonce lookup requires the submitting account"
    >> (node.network_before
        >> (node.latest >>= λ latest_answer. nonce_quantity latest_answer >>= λ latest.
            node.pending >>= λ pending_answer. nonce_quantity pending_answer >>= λ pending.
            node.network_after
            >> (require (leb latest pending)
                  "EVM RPC returned inconsistent account nonces; refresh before submitting"
                >> (wanted_nonce (get "nonce" transaction) pending >>= λ nonce.
                    require (leb pending nonce) nonce_error >> ok nonce))))

-- withPublicEvmNonce
unfoldable pub with_public_evm_nonce : NodeAnswers → Value → Result Value
unfolding hex_digits_before
with_public_evm_nonce node transaction = public_evm_nonce node transaction >>= λ nonce. ok (
    set_own "nonce" (string (str_append "0x" (hex_digits_before (suc nonce) nonce ""))) transaction)

-- A nonce that nothing of the account uses: both answers were read, the included transactions are among
-- the pending ones, and the nonce is the one that was prepared, or the next where none was.
pub record Unused (node : NodeAnswers) (transaction : Value) (nonce : ℕ) : Type 0 where
  pub latest : ℕ
  pub pending : ℕ
  pub latest_read : (v : Value) × (node.latest ≡ ok v) × (nonce_quantity v ≡ ok latest)
  pub pending_read : (v : Value) × (node.pending ≡ ok v) × (nonce_quantity v ≡ ok pending)
  pub wanted : wanted_nonce (get "nonce" transaction) pending ≡ ok nonce
  pub consistent : latest ≤ pending
  pub not_before : pending ≤ nonce

-- A transaction goes to the wallet only with a nonce that no included or pending transaction of the
-- account has: its own, or the next one.
pub public_evm_nonce-Unused :
    (node : NodeAnswers) (transaction : Value) (nonce : ℕ)
    → public_evm_nonce node transaction ≡ ok nonce
    → Unused node transaction nonce
unfolding public_evm_nonce
public_evm_nonce-Unused node transaction nonce h =
    let (account, h₁) = requiring (is_account (get "from" transaction)) _ _ h in
    let (before, h₂) = >>-eq-ok node.network_before _ h₁ in
    let (latest_answer, a, h₃) = >>=-eq-ok node.latest _ h₂ in
    let (latest, b, h₄) = >>=-eq-ok (nonce_quantity latest_answer) _ h₃ in
    let (pending_answer, c, h₅) = >>=-eq-ok node.pending _ h₄ in
    let (pending, d, h₆) = >>=-eq-ok (nonce_quantity pending_answer) _ h₅ in
    let (after, h₇) = >>-eq-ok node.network_after _ h₆ in
    let (ordered, h₈) = requiring (leb latest pending) _ _ h₇ in
    let (wanted, w, h₉) = >>=-eq-ok (wanted_nonce (get "nonce" transaction) pending) _ h₈ in
    let (fresh, h₁₀) = requiring (leb pending wanted) _ _ h₉ in
    subst (Unused node transaction) (ok_injective h₁₀) (record {
      latest = latest;
      pending = pending;
      latest_read = (latest_answer, a, b);
      pending_read = (pending_answer, c, d);
      wanted = w;
      consistent = leb→le latest pending ordered;
      not_before = leb→le pending wanted fresh;
    })

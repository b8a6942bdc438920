-- ===== src/Fees/Funding.antt =====
-- public/deposit-funding.js: whether balances cover a deposit and its fee.
use clairveil_samples.Js.{
  Value, decimal_after, is_canonical_decimal, is_text, message, string, text_of, to_decimal, trim,
  ◌or_nullish◌, ◌or◌,
}
use clairveil_samples.Prelude.{
  >>=-eq-ok, Bool, Result, String, [], ap, arith, false, if◌then◌else◌, leb, leb→le, not, ok,
  ok_injective, refl, require, requiring, sym, true, ℕ, ◌&&◌, ◌+◌, ◌===◌, ◌>>=◌, ◌>>◌, ◌↔◌, ◌∙◌,
  ◌∷◌, ◌≡◌, ◌≤◌,
}

-- canonicalAmount
unfoldable pub canonical_amount : Value → String → Result ℕ
canonical_amount v label =
    let text = trim (text_of (v or_nullish string "")) in
    require (is_canonical_decimal text)
      (message (label ∷ " must be a canonical non-negative integer" ∷ []))
    >> ok (decimal_after 0 text)

-- What is asked of each balance: of both, where the fee is paid in another asset, or of one.
pub data Funding : Type 0 where
  split_funding : ℕ → ℕ → ℕ → ℕ → Funding
  single_funding : ℕ → ℕ → ℕ → Funding

abbrev pub label_of : Value → Value → String → String
label_of first second other = text_of (first or second or string other)

abbrev insufficient : String → ℕ → String → ℕ → String → String
insufficient head need denom available available_denom =
    message (
      head ∷ to_decimal need ∷ denom ∷ ", available " ∷ to_decimal available ∷ available_denom ∷ [])

-- The comparison, of amounts that were read.
unfoldable pub fund : Bool → Bool → String → String → ℕ → ℕ → ℕ → ℕ → Result Funding
fund is_evm is_split asset_denom native_denom amount fee asset native =
    if is_evm && is_split
    then (require (leb amount asset) (
          insufficient
            (message ("Insufficient transparent " ∷ asset_denom ∷ " balance: need " ∷ [])) amount
            asset_denom asset asset_denom)
        >> (require (leb fee native) (
              insufficient "Insufficient EVM gas balance: need " fee native_denom native
                native_denom)
            >> ok (split_funding amount fee asset native)))
    else (require (leb (amount + fee) (if is_evm then native else asset)) (
          insufficient "Insufficient transparent balance: need " (amount + fee)
            (message (asset_denom ∷ " including estimated fee" ∷ []))
            (if is_evm then native else asset) asset_denom)
        >> ok (single_funding amount fee (if is_evm then native else asset)))

-- The arguments of assertDepositFundingAvailable.
pub record Deposit : Type 0 where
  pub amount : Value
  pub fee : Value
  pub asset_balance : Value
  pub native_balance : Value
  pub asset_denom : Value
  pub native_denom : Value
  pub transport : Value

abbrev asset_label : Deposit → String
asset_label d = message (text_of (d.asset_denom or string "asset") ∷ " balance" ∷ [])

abbrev native_label : Deposit → String
native_label d = message (label_of d.native_denom d.asset_denom "native" ∷ " balance" ∷ [])

abbrev pub pays_apart : Deposit → Bool
pays_apart d = not (text_of d.asset_denom === text_of d.native_denom)

-- assertDepositFundingAvailable
unfoldable pub assert_deposit_funding_available : Deposit → Result Funding
assert_deposit_funding_available d = canonical_amount d.amount "deposit amount" >>= λ amount.
    canonical_amount (d.fee or_nullish string "0") "deposit fee" >>= λ fee.
    canonical_amount (d.asset_balance or_nullish string "0") (asset_label d) >>= λ asset.
    canonical_amount (d.native_balance or_nullish d.asset_balance or_nullish string "0")
      (native_label d)
    >>= λ native.
        fund (is_text "evm" d.transport) (pays_apart d) (text_of d.asset_denom)
          (text_of d.native_denom) amount fee asset native

-- What each balance has to pay: on EVM with a gas token of its own, the asset the amount and the gas
-- token the fee; on EVM otherwise, the native balance both; and elsewhere the asset both.
abbrev pub Covers : Bool → Bool → ℕ → ℕ → ℕ → ℕ → Type 0
Covers true true amount fee asset native = (amount ≤ asset) × (fee ≤ native)
Covers true false amount fee asset native = amount + fee ≤ native
Covers false apart amount fee asset native = amount + fee ≤ asset

-- The result: the amount, the fee, and the balances that pay.
abbrev pub funding_of : Bool → Bool → ℕ → ℕ → ℕ → ℕ → Funding
funding_of true true amount fee asset native = split_funding amount fee asset native
funding_of true false amount fee asset native = single_funding amount fee native
funding_of false apart amount fee asset native = single_funding amount fee asset

-- The four amounts of a deposit are read, and its own balances cover its amount and its fee.
pub record Funded (d : Deposit) (f : Funding) : Type 0 where
  pub amount : ℕ
  pub fee : ℕ
  pub asset : ℕ
  pub native : ℕ
  pub amount_read : canonical_amount d.amount "deposit amount" ≡ ok amount
  pub fee_read : canonical_amount (d.fee or_nullish string "0") "deposit fee" ≡ ok fee
  pub asset_read :
      canonical_amount (d.asset_balance or_nullish string "0") (asset_label d) ≡ ok asset
  pub native_read :
      canonical_amount
        (d.native_balance or_nullish d.asset_balance or_nullish string "0")
        (native_label d)
      ≡ ok native
  pub covers : Covers (is_text "evm" d.transport) (pays_apart d) amount fee asset native
  pub result : f ≡ funding_of (is_text "evm" d.transport) (pays_apart d) amount fee asset native

fund-Covers :
    (is_evm is_split : Bool) (asset_denom native_denom : String) (amount fee asset native : ℕ)
    (f : Funding)
    → fund is_evm is_split asset_denom native_denom amount fee asset native ≡ ok f
    → Covers is_evm is_split amount fee asset native
      × (f ≡ funding_of is_evm is_split amount fee asset native)
unfolding fund
fund-Covers true true asset_denom native_denom amount fee asset native f h =
    let (a, h₁) = requiring (leb amount asset) _ _ h in
    let (b, h₂) = requiring (leb fee native) _ _ h₁ in
    ((leb→le amount asset a, leb→le fee native b), sym (ok_injective h₂))
fund-Covers true false asset_denom native_denom amount fee asset native f h =
    let (a, h₁) = requiring (leb (amount + fee) native) _ _ h in
    (leb→le (amount + fee) native a, sym (ok_injective h₁))
fund-Covers false apart asset_denom native_denom amount fee asset native f h =
    let (a, h₁) = requiring (leb (amount + fee) asset) _ _ h in
    (leb→le (amount + fee) asset a, sym (ok_injective h₁))

le→leb : (m n : ℕ) → m ≤ n → leb m n ≡ true
le→leb m n h = ground (arith, h)

fund_of_Covers :
    (is_evm is_split : Bool) (asset_denom native_denom : String) (amount fee asset native : ℕ)
    → Covers is_evm is_split amount fee asset native
    → fund is_evm is_split asset_denom native_denom amount fee asset native
      ≡ ok (funding_of is_evm is_split amount fee asset native)
unfolding fund
fund_of_Covers true true asset_denom native_denom amount fee asset native (a, b) =
    rw (le→leb amount asset a) (rw (le→leb fee native b) refl)
fund_of_Covers true false asset_denom native_denom amount fee asset native h =
    rw (le→leb (amount + fee) native h) refl
fund_of_Covers false apart asset_denom native_denom amount fee asset native h =
    rw (le→leb (amount + fee) asset h) refl

-- A deposit passes with a result exactly if its amount, its fee and its balances can be read, the
-- balances that its transport draws on cover the amount and the fee, and the result names them.
pub deposit_funding_iff :
    (d : Deposit) (f : Funding) → (assert_deposit_funding_available d ≡ ok f) ↔ Funded d f
unfolding assert_deposit_funding_available
deposit_funding_iff d f = (
  λ h.
      let (amount, a, h₁) = >>=-eq-ok (canonical_amount d.amount "deposit amount") _ h in
      let (fee, b, h₂) =
        >>=-eq-ok (canonical_amount (d.fee or_nullish string "0") "deposit fee") _ h₁ in
      let (asset, c, h₃) =
        >>=-eq-ok (canonical_amount (d.asset_balance or_nullish string "0") (asset_label d)) _ h₂ in
      let (native, e, h₄) =
        >>=-eq-ok
          (canonical_amount (d.native_balance or_nullish d.asset_balance or_nullish string "0")
            (native_label d))
          _ h₃ in
      let (covered, result) =
        fund-Covers (is_text "evm" d.transport) (pays_apart d) (text_of d.asset_denom)
          (text_of d.native_denom) amount fee asset native f h₄ in
      record {
        amount = amount;
        fee = fee;
        asset = asset;
        native = native;
        amount_read = a;
        fee_read = b;
        asset_read = c;
        native_read = e;
        covers = covered;
        result = result;
      },
  λ r.
      rw (r.amount_read, r.fee_read, r.asset_read, r.native_read)
        (fund_of_Covers (is_text "evm" d.transport) (pays_apart d) (text_of d.asset_denom)
            (text_of d.native_denom) r.amount r.fee r.asset r.native r.covers
          ∙ ap ok (sym r.result)),
)

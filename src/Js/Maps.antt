-- ===== src/Js/Maps.antt =====
-- A `Map` keyed by texts: its entries in the order of insertion.
use clairveil_samples.Prelude.{
  List, Option, String, [], arith, eq_iff, if◌then◌else◌, none, refl, some, ◌===◌, ◌∷◌, ◌≡◌,
}

module _ {ℓ} {V : Type ℓ} where
  -- `map.get(key)`; `none` stands for `undefined`.
  unfoldable pub lookup : String → List (String × V) → Option V
  lookup key [] = none
  lookup key ((other, value) ∷ rest) = if other === key then some value else lookup key rest

  -- `map.delete(key)`
  unfoldable pub remove : String → List (String × V) → List (String × V)
  remove key [] = []
  remove key ((other, value) ∷ rest) =
      let left = remove key rest in if other === key then left else (other, value) ∷ left

  pub lookup-remove :
      (key wanted : String) (entries : List (String × V))
      → lookup wanted (remove key entries)
        ≡ (if key === wanted then none else lookup wanted entries)
  unfolding lookup remove
  lookup-remove key wanted [] = ground arith
  lookup-remove key wanted ((other, value) ∷ rest) = ground (
    arith,
    eq_iff key wanted,
    eq_iff other key,
    eq_iff other wanted,
    lookup-remove key wanted rest,
  )

  -- `map.set(key, value)`
  unfoldable pub insert : String → V → List (String × V) → List (String × V)
  insert key new [] = (key, new) ∷ []
  insert key new ((other, value) ∷ rest) =
      if other === key then (key, new) ∷ rest else (other, value) ∷ insert key new rest

  pub lookup-insert :
      (key wanted : String) (new : V) (entries : List (String × V))
      → lookup wanted (insert key new entries)
        ≡ (if key === wanted then some new else lookup wanted entries)
  unfolding lookup insert
  lookup-insert key wanted new [] = refl
  lookup-insert key wanted new ((other, value) ∷ rest) = ground (
    arith,
    eq_iff key wanted,
    eq_iff other key,
    eq_iff other wanted,
    lookup-insert key wanted new rest,
  )

-- ===== src/Prelude/Sets.antt =====
-- Lists of texts as sets: what `unique` keeps, lists with no text twice, and counting them.
use clairveil_samples.Prelude.{
  ==_iff, All, AllDistinct, Bool-cases, List, String, [], ap, arith, eq_iff, eq_refl, false, has,
  if◌then◌else◌, inl, inr, keep, length, length-keep-le, not, refl, subst, suc, sym, true, unique,
  ◌&&◌, ◌++◌, ◌===◌, ◌==◌, ◌||◌, ◌↔◌, ◌∙◌, ◌∷◌, ◌≡◌, ◌≤◌,
}

abbrev without : String → List String → List String
without x = keep (λ y. not (x === y))

has-without : (k x : String) (l : List String) → has k (without x l) ≡ (has k l && not (x === k))
has-without k x [] = refl
has-without k x (y ∷ l) = ground (arith, has-without k x l, eq_iff x y, eq_iff y k, eq_iff x k)

pub has-unique : (k : String) (l : List String) → has k (unique l) ≡ has k l
has-unique k [] = refl
has-unique k (x ∷ l) = ground (arith, has-without k x (unique l), has-unique k l, eq_iff x k)

length-without_eq :
    (x : String) (l : List String) → length (without x l) ≡ length l → has x l ≡ false
length-without_eq x [] h = refl
length-without_eq x (y ∷ l) h = ground (
  arith,
  length-without_eq x l,
  length-keep-le (λ (z : String). not (x === z)) l,
  eq_iff x y,
  eq_iff y x,
)

without_absent : (x : String) (l : List String) → has x l ≡ false → without x l ≡ l
without_absent x [] h = refl
without_absent x (y ∷ l) h = ground (arith, without_absent x l, eq_iff x y, eq_iff y x)

length-unique-le : (l : List String) → length (unique l) ≤ length l
length-unique-le [] = omega arith
length-unique-le (x ∷ l) =
    omega (arith, length-unique-le l, length-keep-le (λ (z : String). not (x === z)) (unique l))

unique→AllDistinct : (l : List String) → length (unique l) ≡ length l → AllDistinct l
unique→AllDistinct [] h = tt
unique→AllDistinct (x ∷ l) h =
    let below = length-unique-le l in
    let kept = length-keep-le (λ (z : String). not (x === z)) (unique l) in
    let whole : length (unique l) ≡ length l = omega (arith, below, kept) in
    let same : length (without x (unique l)) ≡ length (unique l) = omega (arith, below, kept) in
    (sym (has-unique x l) ∙ length-without_eq x (unique l) same, unique→AllDistinct l whole)

pub unique_of_AllDistinct : (l : List String) → AllDistinct l → unique l ≡ l
unique_of_AllDistinct [] h = refl
unique_of_AllDistinct (x ∷ l) (new, h) =
    rw (unique_of_AllDistinct l h) (ap (λ (t : List String). x ∷ t) (without_absent x l new))

-- The source's test for a list with no text twice.
pub unique_iff : (l : List String) → ((length (unique l) == length l) ≡ true) ↔ AllDistinct l
unique_iff l = (
  λ e. unique→AllDistinct l ((==_iff _ _).0 e),
  λ h. (==_iff _ _).1 (ap length (unique_of_AllDistinct l h)),
)

-- Every text of the first list stands in the second.
abbrev pub IsSubset : List String → List String → Type 0
IsSubset xs ys = (k : String) → has k xs ≡ true → has k ys ≡ true

abbrev drop_one : String → List String → List String
drop_one x [] = []
drop_one x (y ∷ l) = if y === x then l else y ∷ drop_one x l

length-drop_one :
    (x : String) (l : List String) → has x l ≡ true → suc (length (drop_one x l)) ≡ length l
length-drop_one x [] h = cc
length-drop_one x (y ∷ l) h = ground (arith, length-drop_one x l)

has-drop_one : (k x : String) (l : List String) → (x === k) ≡ false → has k (drop_one x l) ≡ has k l
has-drop_one k x [] h = refl
has-drop_one k x (y ∷ l) h =
    ground (arith, has-drop_one k x l h, eq_iff y x, eq_iff y k, eq_iff x k)

has-drop_one_of : (k x : String) (l : List String) → has k (drop_one x l) ≡ true → has k l ≡ true
has-drop_one_of k x [] h = h
has-drop_one_of k x (y ∷ l) h = ground (arith, has-drop_one_of k x l)

-- A list with no text twice that lies in a list that is no longer holds all of that list.
pub IsSubset-converse :
    (xs ys : List String) → AllDistinct xs → IsSubset xs ys → length ys ≤ length xs → IsSubset ys xs
IsSubset-converse [] [] d s h k e = e
IsSubset-converse [] (y ∷ ys) d s h k e = absurd (omega arith)
IsSubset-converse (x ∷ xs) ys (new, d) s h k e = elim (Bool-cases (x === k)) [
  | inl same ↦ rw same
  | inr other ↦
      let inside : has x ys ≡ true = s x (rw (eq_refl x)) in
      let rest : IsSubset (drop_one x ys) xs =
        IsSubset-converse xs (drop_one x ys) d (λ j hj. smaller j hj)
          (omega (arith, length-drop_one x ys inside)) in
      rw other (rest k (has-drop_one k x ys other ∙ e))
]
  where
    clash : {j : String} → x ≡ j → has j xs ≡ true → has j (drop_one x ys) ≡ true
    clash p q = cc

    smaller : (j : String) → has j xs ≡ true → has j (drop_one x ys) ≡ true
    smaller j hj = elim (Bool-cases (x === j)) [
      | inl same ↦ clash ((eq_iff x j).0 same) hj
      | inr other ↦ has-drop_one j x ys other ∙ s j (rw other hj)
    ]

pub has-append : (k : String) (xs ys : List String) → has k (xs ++ ys) ≡ (has k xs || has k ys)
has-append k [] ys = refl
has-append k (x ∷ xs) ys = ground (arith, has-append k xs ys)

-- What all members of a set have, whatever is found in it has.
pub has-All {ℓ} :
    (P : String → Type ℓ) (k : String) (xs : List String) → All P xs → has k xs ≡ true → P k
has-All P k [] p h = cc
has-All P k (x ∷ xs) (p, ps) h = elim (Bool-cases (x === k)) [
  | inl e ↦ subst P ((eq_iff x k).0 e) p
  | inr e ↦ has-All P k xs ps (ground (arith, e, h))
]

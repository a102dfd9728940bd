-- ===== src/Hash/Chain.antt =====
-- The items of src/hash.h and the walks over one list of them, with the walks' laws.
use memqueue.Base.{
  ℕ, ◌+◌, ◌≤◌, ◌≡◌, refl, List, [], ◌∷◌, ◌++◌, Option, none, some, true, Text, str_eq, str_eq_iff,
  if◌then◌else◌, length, arith,
}

-- `order` of the struct is never used.
pub record Item {ℓ} (V : Type ℓ) : Type ℓ where
  pub key : Text
  pub value : V

module _ {ℓ} {V : Type ℓ} where
  -- The first item whose key compares equal.
  unfoldable pub find : Text → List (Item V) → Option (Item V)
  find k [] = none
  find k (x ∷ xs) = if str_eq k x.key then some x else find k xs

  -- The list without that item.
  unfoldable pub erase : Text → List (Item V) → List (Item V)
  erase k [] = []
  erase k (x ∷ xs) = if str_eq k x.key then xs else x ∷ erase k xs

  -- How many items have the key.
  unfoldable pub count : Text → List (Item V) → ℕ
  count k [] = 0
  count k (x ∷ xs) = (if str_eq k x.key then 1 else 0) + count k xs

  pub find-eq-none : (k : Text) (xs : List (Item V)) → count k xs ≡ 0 → find k xs ≡ none
  unfolding find count
  find-eq-none k [] h = refl
  find-eq-none k (x ∷ xs) h = ground (arith, find-eq-none k xs)

  pub count-eq-zero : (k : Text) (xs : List (Item V)) → find k xs ≡ none → count k xs ≡ 0
  unfolding find count
  count-eq-zero k [] h = refl
  count-eq-zero k (x ∷ xs) h = ground (arith, count-eq-zero k xs)

  pub count-append :
      (k : Text) (xs ys : List (Item V)) → count k (xs ++ ys) ≡ count k xs + count k ys
  unfolding count
  count-append k [] ys = omega arith
  count-append k (x ∷ xs) ys = omega (arith, count-append k xs ys)

  pub find-append_one :
      (q : Text) (xs : List (Item V)) (x : Item V)
      → find x.key xs ≡ none
      → find q (xs ++ x ∷ []) ≡ (if str_eq q x.key then some x else find q xs)
  unfolding find
  find-append_one q [] x h = refl
  find-append_one q (y ∷ ys) x h = ground (
    arith,
    find-append_one q ys x,
    str_eq_iff q x.key,
    str_eq_iff q y.key,
    str_eq_iff x.key y.key,
  )

  pub find-erase :
      (q k : Text) (xs : List (Item V))
      → count k xs ≤ 1
      → find q (erase k xs) ≡ (if str_eq q k then none else find q xs)
  unfolding find erase count
  find-erase q k [] h = ground arith
  find-erase q k (y ∷ ys) h = ground (
    arith,
    find-erase q k ys,
    find-eq-none k ys,
    str_eq_iff q k,
    str_eq_iff q y.key,
    str_eq_iff k y.key,
  )

  pub count-erase-le : (q k : Text) (xs : List (Item V)) → count q (erase k xs) ≤ count q xs
  unfolding erase count
  count-erase-le q k [] = omega arith
  count-erase-le q k (y ∷ ys) = ground (arith, count-erase-le q k ys)

  pub length-erase :
      (k : Text) (xs : List (Item V)) (x : Item V)
      → find k xs ≡ some x
      → length (erase k xs) + 1 ≡ length xs
  unfolding find erase
  length-erase k [] x h = ground arith
  length-erase k (y ∷ ys) x h = ground (arith, length-erase k ys x)

  pub key-find :
      (k : Text) (xs : List (Item V)) (x : Item V) → find k xs ≡ some x → str_eq k x.key ≡ true
  unfolding find
  key-find k [] x h = ground arith
  key-find k (y ∷ ys) x h = ground (arith, key-find k ys x)

-- ===== src/Common/Order.antt =====
-- Sorting by a Boolean test `gt`, the best elements first, and keeping the best `n` of a stream.
-- `sort` is stable, as Rust's `sort_by` is; `sort_unstable_by` may order ties otherwise.
pub mod Last
use vim_clap.Common.{
  count, any, all, ◌||◌, ◌&&◌, ℕ, zero, suc, ◌≤◌, ◌≡◌, refl, ap, ◌∙◌, Bool, true, false, List, [],
  ◌∷◌, ◌++◌, map, inl, inr, arith, if◌then◌else◌, Bool-cases, length, take,
}

module _ {ℓ} {A : Type ℓ} (gt : A → A → Bool) where
  -- Puts `x` behind the last of the leading elements that are greater.
  unfoldable pub insert : A → List A → List A
  insert x [] = x ∷ []
  insert x (y ∷ ys) = let rest = y ∷ insert x ys in if gt y x then rest else x ∷ y ∷ ys

  unfoldable pub sort : List A → List A
  sort [] = []
  sort (x ∷ xs) = insert x (sort xs)

  -- No element is greater than one before it.
  abbrev pub IsSorted : List A → Type 0
  IsSorted [] = Unit
  IsSorted (x ∷ []) = Unit
  IsSorted (x ∷ y ∷ ys) = (gt y x ≡ false) × IsSorted (y ∷ ys)

pub record LinearOrder {ℓ} {A : Type ℓ} (gt : A → A → Bool) : Type ℓ where
  pub asym : (a b : A) → gt a b ≡ true → gt b a ≡ false
  pub trans : (a b c : A) → gt a b ≡ true → gt b c ≡ true → gt a c ≡ true
  pub antisym : (a b : A) → gt a b ≡ false → gt b a ≡ false → a ≡ b

pub take-take {ℓ} : {A : Type ℓ} (m n : ℕ) (xs : List A) → m ≤ n → take m (take n xs) ≡ take m xs
take-take zero n xs h = refl
take-take (suc m) zero xs h = absurd (omega arith)
take-take (suc m) (suc n) [] h = refl
take-take (suc m) (suc n) (x ∷ xs) h = ap (◌∷◌ x) (take-take m n xs (omega arith))

module _ {ℓ} {A : Type ℓ} (gt : A → A → Bool) where
  pub length-insert : (x : A) (xs : List A) → length (insert gt x xs) ≡ suc (length xs)
  unfolding insert
  length-insert x [] = refl
  length-insert x (y ∷ ys) = ground (arith, length-insert x ys)

  pub length-sort : (xs : List A) → length (sort gt xs) ≡ length xs
  unfolding sort
  length-sort [] = refl
  length-sort (x ∷ xs) = length-insert x (sort gt xs) ∙ ap suc (length-sort xs)

  -- To insert an element and keep `n`, the first `n` elements are all that matter.
  pub take-insert-take :
      (n : ℕ) (x : A) (xs : List A) → take n (insert gt x (take n xs)) ≡ take n (insert gt x xs)
  unfolding insert
  take-insert-take zero x xs = refl
  take-insert-take (suc n) x [] = refl
  take-insert-take (suc n) x (y ∷ ys) = elim (Bool-cases (gt y x)) [
    | inl p ↦ rw p (ap (◌∷◌ y) (take-insert-take n x ys))
    | inr p ↦ rw p (ap (◌∷◌ x) (take_cons-take n y ys))
  ]
    where
      take_cons-take : (n : ℕ) (y : A) (ys : List A) → take n (y ∷ take n ys) ≡ take n (y ∷ ys)
      take_cons-take zero y ys = refl
      take_cons-take (suc m) y ys = ap (◌∷◌ y) (take-take m (suc m) ys (omega arith))

  pub map-insert {κ} :
      {B : Type κ} (f : B → A) (x : B) (xs : List B)
      → map f (insert (λ a b. gt (f a) (f b)) x xs) ≡ insert gt (f x) (map f xs)
  unfolding insert
  map-insert f x [] = refl
  map-insert f x (y ∷ ys) = elim (Bool-cases (gt (f y) (f x))) [
    | inl p ↦ rw p (ap (◌∷◌ (f y)) (map-insert f x ys))
    | inr p ↦ rw p refl
  ]

  -- Sorting by a key sorts the keys.
  pub map-sort {κ} :
      {B : Type κ} (f : B → A) (xs : List B)
      → map f (sort (λ a b. gt (f a) (f b)) xs) ≡ sort gt (map f xs)
  unfolding sort
  map-sort f [] = refl
  map-sort f (x ∷ xs) =
      map-insert f x (sort (λ a b. gt (f a) (f b)) xs) ∙ ap (insert gt (f x)) (map-sort f xs)

  pub take-IsSorted : (n : ℕ) (xs : List A) → IsSorted gt xs → IsSorted gt (take n xs)
  take-IsSorted zero xs h = tt
  take-IsSorted (suc n) [] h = tt
  take-IsSorted (suc zero) (x ∷ xs) h = tt
  take-IsSorted (suc (suc n)) (x ∷ []) h = tt
  take-IsSorted (suc (suc n)) (x ∷ y ∷ ys) h = (h.0, take-IsSorted (suc n) (y ∷ ys) h.1)

  pub sort-of_IsSorted : (xs : List A) → IsSorted gt xs → sort gt xs ≡ xs
  unfolding sort insert
  sort-of_IsSorted [] h = refl
  sort-of_IsSorted (x ∷ []) h = refl
  sort-of_IsSorted (x ∷ y ∷ ys) h = rw (sort-of_IsSorted (y ∷ ys) h.1, h.0) refl

module _ {ℓ} {A : Type ℓ} (gt : A → A → Bool) where
  pub tail-IsSorted : (x : A) (xs : List A) → IsSorted gt (x ∷ xs) → IsSorted gt xs
  tail-IsSorted x [] h = tt
  tail-IsSorted x (y ∷ ys) h = h.1

module _ {ℓ} {A : Type ℓ} {gt : A → A → Bool}
    (asym : (a b : A) → gt a b ≡ true → gt b a ≡ false) where
  IsSorted-cons_insert :
      (z x : A) (xs : List A)
      → gt x z ≡ false
      → IsSorted gt (z ∷ xs)
      → IsSorted gt (insert gt x xs)
      → IsSorted gt (z ∷ insert gt x xs)
  unfolding insert
  IsSorted-cons_insert z x [] h s i = (h, tt)
  IsSorted-cons_insert z x (y ∷ ys) h s i = elim (Bool-cases (gt y x)) [
    | inl p ↦ rw (p) (s.0, rw p at i)
    | inr p ↦ rw (p) (h, rw p at i)
  ]

  insert_step :
      (x y : A) (ys : List A)
      → IsSorted gt (y ∷ ys)
      → IsSorted gt (insert gt x ys)
      → IsSorted gt (insert gt x (y ∷ ys))
  insert_step x y ys h ih = elim (Bool-cases (gt y x)) [
    | inl p ↦ let kept = IsSorted-cons_insert y x ys (asym y x p) h ih in unfold insert in rw p kept
    | inr p ↦ unfold insert in rw p (p, h)
  ]

  pub insert-IsSorted : (x : A) (xs : List A) → IsSorted gt xs → IsSorted gt (insert gt x xs)
  unfolding insert
  insert-IsSorted x [] h = tt
  insert-IsSorted x (y ∷ ys) h =
      insert_step x y ys h (insert-IsSorted x ys (tail-IsSorted gt y ys h))

  pub sort-IsSorted : (xs : List A) → IsSorted gt (sort gt xs)
  unfolding sort
  sort-IsSorted [] = tt
  sort-IsSorted (x ∷ xs) = insert-IsSorted x (sort gt xs) (sort-IsSorted xs)

module _ {ℓ} {A : Type ℓ} {gt : A → A → Bool} (o : LinearOrder gt) where
  -- Elements that the order does not tell apart are equal, so the order of insertion is immaterial.
  pub insert_comm :
      (x y : A) (xs : List A) → insert gt x (insert gt y xs) ≡ insert gt y (insert gt x xs)
  unfolding insert
  insert_comm x y [] = ground (arith, o.asym x y, o.antisym x y)
  insert_comm x y (z ∷ zs) = ground (
    arith,
    o.asym x y,
    o.antisym x y,
    o.trans z x y,
    o.trans z y x,
    o.trans x y z,
    o.trans y x z,
    o.asym x z,
    o.asym y z,
    o.asym z x,
    o.asym z y,
    o.antisym x z,
    o.antisym y z,
    insert_comm x y zs,
  )

  pub sort-append : (x : A) (xs : List A) → sort gt (xs ++ x ∷ []) ≡ insert gt x (sort gt xs)
  unfolding sort
  sort-append x [] = refl
  sort-append x (y ∷ ys) = ap (insert gt y) (sort-append x ys) ∙ insert_comm y x (sort gt ys)

-- Sorting changes no count and no test of the elements.
module _ {ℓ} {A : Type ℓ} (gt : A → A → Bool) (p : A → Bool) where
  count-insert : (x : A) (xs : List A) → count p (insert gt x xs) ≡ count p (x ∷ xs)
  unfolding insert
  count-insert x [] = refl
  count-insert x (y ∷ ys) = ground (arith, count-insert x ys)

  pub count-sort : (xs : List A) → count p (sort gt xs) ≡ count p xs
  unfolding sort
  count-sort [] = refl
  count-sort (x ∷ xs) = ground (arith, count-insert x (sort gt xs), count-sort xs)

  any-insert : (x : A) (xs : List A) → any p (insert gt x xs) ≡ (p x || any p xs)
  unfolding insert
  any-insert x [] = refl
  any-insert x (y ∷ ys) = ground (arith, any-insert x ys)

  pub any-sort : (xs : List A) → any p (sort gt xs) ≡ any p xs
  unfolding sort
  any-sort [] = refl
  any-sort (x ∷ xs) = any-insert x (sort gt xs) ∙ ap (λ b. p x || b) (any-sort xs)

  all-insert : (x : A) (xs : List A) → all p (insert gt x xs) ≡ (p x && all p xs)
  unfolding insert
  all-insert x [] = refl
  all-insert x (y ∷ ys) = ground (arith, all-insert x ys)

  pub all-sort : (xs : List A) → all p (sort gt xs) ≡ all p xs
  unfolding sort
  all-sort [] = refl
  all-sort (x ∷ xs) = all-insert x (sort gt xs) ∙ ap (λ b. p x && b) (all-sort xs)

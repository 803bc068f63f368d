-- ===== src/Common/Order/Last.antt =====
-- Inserting into a full list that is sorted: the new element against the last one.
use vim_clap.Common.{
  length-append, suc, ◌≡◌, refl, sym, ap, ◌∙◌, true, false, some, List, [], ◌∷◌, ◌++◌, length, take,
  last, arith, Bool, Bool-cases, inl, inr,
}
use vim_clap.Common.Order.{LinearOrder, IsSorted, insert, length-insert}
use mathlib.Core.Path.{subst}

abbrev pub without_last {ℓ} : {A : Type ℓ} → List A → List A
without_last [] = []
without_last (x ∷ []) = []
without_last (x ∷ y ∷ ys) = x ∷ without_last (y ∷ ys)

pub without_last-append {ℓ} :
    {A : Type ℓ} (xs : List A) {l : A} → last xs ≡ some l → xs ≡ without_last xs ++ l ∷ []
without_last-append [] h = ground arith
without_last-append (x ∷ []) h = ground arith
without_last-append (x ∷ y ∷ ys) h = ap (◌∷◌ x) (without_last-append (y ∷ ys) h)

take-append {ℓ} : {A : Type ℓ} (xs ys : List A) → take (length xs) (xs ++ ys) ≡ xs
take-append [] ys = refl
take-append (x ∷ xs) ys = ap (◌∷◌ x) (take-append xs ys)

module _ {ℓ} {A : Type ℓ} {gt : A → A → Bool} (o : LinearOrder gt) where
  insert-append_last :
      (r l : A) (xs : List A)
      → gt r l ≡ true
      → insert gt r (xs ++ l ∷ []) ≡ insert gt r xs ++ l ∷ []
  unfolding insert
  insert-append_last r l [] h = rw (o.asym r l h) refl
  insert-append_last r l (x ∷ xs) h = elim (Bool-cases (gt x r)) [
    | inl p ↦ rw p (ap (◌∷◌ x) (insert-append_last r l xs h))
    | inr p ↦ rw p refl
  ]

  -- A greater one takes the place of the last.
  pub take-insert-gt :
      (r l : A) (xs : List A)
      → gt r l ≡ true
      → take (suc (length xs)) (insert gt r (xs ++ l ∷ [])) ≡ insert gt r xs
  take-insert-gt r l xs h =
      ap (take (suc (length xs))) (insert-append_last r l xs h)
      ∙ ap (λ n. take n (insert gt r xs ++ l ∷ [])) (sym (length-insert gt r xs))
      ∙ take-append (insert gt r xs) (l ∷ [])

  -- Another one changes nothing.
  pub take-insert-not_gt :
      (r : A) (xs : List A) {l : A}
      → IsSorted gt xs
      → last xs ≡ some l
      → gt r l ≡ false
      → take (length xs) (insert gt r xs) ≡ xs
  unfolding insert
  take-insert-not_gt r [] s e h = refl
  take-insert-not_gt r (x ∷ []) s e h = ground (arith, o.antisym r x)
  take-insert-not_gt r (x ∷ y ∷ ys) s e h = elim (Bool-cases (gt x r)) [
    | inl p ↦ rw p (ap (◌∷◌ x) (take-insert-not_gt r (y ∷ ys) s.1 e h))
    | inr p ↦
        let ih = take-insert-not_gt r (y ∷ ys) s.1 e h in
        let q = not_gt_below x y r s.0 p in
        let e' : r ∷ take (length ys) (y ∷ ys) ≡ y ∷ ys = rw q at ih in
        rw p (all_same x y r ys s.0 p e')
  ]
    where
      not_gt_below : (x y r : A) → gt y x ≡ false → gt x r ≡ false → gt y r ≡ false
      not_gt_below x y r h k = ground (arith, o.asym y r, o.trans y r x, o.antisym x r, o.asym x r)

      all_same :
          (x y r : A) (ys : List A)
          → gt y x ≡ false
          → gt x r ≡ false
          → r ∷ take (length ys) (y ∷ ys) ≡ y ∷ ys
          → r ∷ x ∷ take (length ys) (y ∷ ys) ≡ x ∷ y ∷ ys
      all_same x y r ys h k e = ground (arith, o.antisym r x)

  pub take-insert-gt_last :
      (r : A) (xs : List A) {l : A}
      → last xs ≡ some l
      → gt r l ≡ true
      → take (length xs) (insert gt r xs) ≡ insert gt r (without_last xs)
  take-insert-gt_last r xs {l} e h =
      let n : length (without_last xs ++ l ∷ []) ≡ suc (length (without_last xs)) =
        omega (arith, length-append (without_last xs) (l ∷ [])) in
      subst (λ ys. take (length ys) (insert gt r ys) ≡ insert gt r (without_last xs))
        (sym (without_last-append xs e))
        (ap (λ k. take k (insert gt r (without_last xs ++ l ∷ []))) n
          ∙ take-insert-gt r l (without_last xs) h)

pub without_last-IsSorted {ℓ} :
    {A : Type ℓ} (gt : A → A → Bool) (xs : List A) → IsSorted gt xs → IsSorted gt (without_last xs)
without_last-IsSorted gt [] s = tt
without_last-IsSorted gt (x ∷ []) s = tt
without_last-IsSorted gt (x ∷ y ∷ []) s = tt
without_last-IsSorted gt (x ∷ y ∷ z ∷ zs) s = (s.0, without_last-IsSorted gt (y ∷ z ∷ zs) s.1)

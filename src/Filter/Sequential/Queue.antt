-- ===== src/Filter/Sequential/Queue.antt =====
-- One insertion into a queue of the best ranks: the index that `find_best_rank_idx` finds is where
-- `insert` would put the rank.
use mathlib.Core.Path.{subst}
use mathlib.Core.List.{append-nil, reverse, reverse-append}
use mathlib.Core.Option
use vim_clap.Common.{
  sym, ltb→lt, ℕ, zero, suc, ◌+◌, ◌-◌, ◌≤◌, ◌<◌, ◌≡◌, refl, ap, ◌∙◌, true, false, Option, none,
  some, List, [], ◌∷◌, ◌++◌, ltb, if◌then◌else◌, length, take, drop, set, find, arith, Bool-cases,
  inl, inr,
}
use vim_clap.Common.Order.{tail-IsSorted, insert, IsSorted, LinearOrder}
use vim_clap.Types.Rank.{Rank, rank_gt}
use vim_clap.Filter.Sequential.{
  max_idx, items_to_show, pop_and_insert, enumerate, find_best_rank_idx,
}

-- How many places stand before and at the last rank greater than `r`.
abbrev pub slot : Rank → List Rank → ℕ
slot r [] = 0
slot r (x ∷ xs) = elim (slot r xs) [ zero ↦ if rank_gt x r then 1 else 0 | suc k ↦ suc (suc k) ]

abbrev pub index_of : ℕ → ℕ → Option ℕ
index_of i zero = none
index_of i (suc k) = some (i + k)

abbrev greater_index : Rank → List (ℕ × Rank) → Option ℕ
greater_index r l = Option.map (λ p. p.0) (find (λ (p : ℕ × Rank). rank_gt p.1 r) l)

abbrev or_else : Option ℕ → Option ℕ → Option ℕ
or_else none b = b
or_else (some a) b = some a

greater_index-append :
    (r : Rank) (l m : List (ℕ × Rank))
    → greater_index r (l ++ m) ≡ or_else (greater_index r l) (greater_index r m)
greater_index-append r [] m = refl
greater_index-append r (p ∷ l) m = ground (arith, greater_index-append r l m)

index_of_step :
    (r x : Rank) (i k : ℕ) (xs : List Rank)
    → slot r xs ≡ k
    → or_else (index_of (suc i) k) (if rank_gt x r then some i else none)
      ≡ index_of i (slot r (x ∷ xs))
index_of_step r x i zero xs e = rw e (ground arith)
index_of_step r x i (suc k) xs e = rw e (ap some (omega arith))

find_from :
    (r : Rank) (i : ℕ) (xs : List Rank)
    → greater_index r (reverse (enumerate i xs)) ≡ index_of i (slot r xs)
find_from r i [] = refl
find_from r i (x ∷ xs) =
    ap (greater_index r) (reverse-append ((i, x) ∷ []) (enumerate (suc i) xs))
    ∙ greater_index-append r (reverse (enumerate (suc i) xs)) ((i, x) ∷ [])
    ∙ ap (λ o. or_else o (greater_index r ((i, x) ∷ []))) (find_from r (suc i) xs)
    ∙ last_step
  where
    last_step :
        or_else (index_of (suc i) (slot r xs)) (greater_index r ((i, x) ∷ []))
        ≡ index_of i (slot r (x ∷ xs))
    last_step = single ∙ index_of_step r x i (slot r xs) xs refl
      where
        single :
            or_else (index_of (suc i) (slot r xs)) (greater_index r ((i, x) ∷ []))
            ≡ or_else (index_of (suc i) (slot r xs)) (if rank_gt x r then some i else none)
        single = ap (or_else (index_of (suc i) (slot r xs))) (ground arith)

pub find_best_rank_idx_lem :
    (ranks : List Rank) (r : Rank) → find_best_rank_idx ranks r ≡ index_of 0 (slot r ranks)
unfolding find_best_rank_idx
find_best_rank_idx_lem ranks r = find_from r 0 ranks

module _ (o : LinearOrder rank_gt) where
  not_gt_trans : (a b c : Rank) → rank_gt a b ≡ false → rank_gt b c ≡ false → rank_gt a c ≡ false
  not_gt_trans a b c h k = ground (arith, o.antisym b c, o.trans a c b, o.asym a c, o.asym c b)

  slot-zero :
      (r y : Rank) (ys : List Rank)
      → IsSorted rank_gt (y ∷ ys)
      → rank_gt y r ≡ false
      → slot r ys ≡ 0
  slot-zero r y [] s h = refl
  slot-zero r y (z ∷ zs) s h =
      let g = not_gt_trans z y r s.0 h in rw (slot-zero r z zs s.1 g, g) refl

  slot_step : (r y : Rank) (ys : List Rank) → rank_gt y r ≡ true → slot r (y ∷ ys) ≡ suc (slot r ys)
  slot_step r y ys g = by_slot (slot r ys) refl
    where
      by_slot : (k : ℕ) → slot r ys ≡ k → slot r (y ∷ ys) ≡ suc (slot r ys)
      by_slot zero e = rw (e, g) refl
      by_slot (suc k) e = rw e refl

  abbrev IsPlaced : Rank → List Rank → ℕ → Type 0
  IsPlaced r xs k = (insert rank_gt r xs ≡ take k xs ++ r ∷ drop k xs) × (k ≤ length xs)

  insert_deeper :
      (r y : Rank) (ys : List Rank)
      → rank_gt y r ≡ true
      → IsPlaced r ys (slot r ys)
      → IsPlaced r (y ∷ ys) (slot r (y ∷ ys))
  unfolding insert
  insert_deeper r y ys g (e, l) =
      subst (IsPlaced r (y ∷ ys)) (sym (slot_step r y ys g)) (rw g (ap (◌∷◌ y) e), omega arith)

  -- In a sorted queue the slot is where `insert` puts the rank.
  pub insert-slot :
      (r : Rank) (xs : List Rank)
      → IsSorted rank_gt xs
      → (insert rank_gt r xs ≡ take (slot r xs) xs ++ r ∷ drop (slot r xs) xs)
        × (slot r xs ≤ length xs)
  unfolding insert
  insert-slot r [] s = (refl, omega arith)
  insert-slot r (y ∷ ys) s = elim (Bool-cases (rank_gt y r)) [
    | inl g ↦ insert_deeper r y ys g (insert-slot r ys (tail-IsSorted rank_gt y ys s))
    | inr g ↦ rw (slot-zero r y ys s g, g) (refl, omega arith)
  ]

append_nil_of : {A : Type 0} (xs ys : List A) → ys ≡ [] → xs ++ ys ≡ xs
append_nil_of xs ys h = rw h (append-nil xs)

drop_all : {A : Type 0} (n : ℕ) (xs : List A) → length xs ≤ n → drop n xs ≡ []
drop_all zero [] h = refl
drop_all zero (x ∷ xs) h = absurd (omega arith)
drop_all (suc n) [] h = refl
drop_all (suc n) (x ∷ xs) h = drop_all n xs (omega arith)

-- The shifted array with `v` written at `idx` is the array with `v` put in and the last place lost.
place :
    {A : Type 0} (n idx m : ℕ) (v : A) (xs : List A)
    → length xs ≡ suc n
    → m + idx ≡ n
    → set (take (suc idx) xs ++ (take m (drop idx xs) ++ drop (suc n) xs)) idx v
      ≡ take (suc n) (take idx xs ++ v ∷ drop idx xs)
place n idx m v [] l h = absurd (omega arith)
place n zero m v (x ∷ xs) l h =
    let e : m ≡ n = omega arith in
    rw e (ap (◌∷◌ v) (append_nil_of (take n (x ∷ xs)) _ (drop_all n xs (omega arith))))
place zero (suc idx) m v (x ∷ xs) l h = absurd (omega arith)
place (suc n) (suc idx) m v (x ∷ xs) l h =
    ap (◌∷◌ x) (place n idx m v xs (omega arith) (omega arith))

set_at_end :
    {A : Type 0} (n : ℕ) (v : A) (xs : List A)
    → length xs ≡ suc n
    → set xs n v ≡ take (suc n) (take n xs ++ v ∷ drop n xs)
set_at_end n v [] l = absurd (omega arith)
set_at_end zero v (x ∷ []) l = refl
set_at_end zero v (x ∷ y ∷ xs) l = absurd (omega arith)
set_at_end (suc n) v (x ∷ xs) l = ap (◌∷◌ x) (set_at_end n v xs (omega arith))

-- On a full queue `pop_and_insert` puts the value at the index and drops the last place.
pub pop_and_insert_lem :
    {A : Type 0} (idx : ℕ) (v : A) (xs : List A)
    → length xs ≡ items_to_show
    → idx ≤ max_idx
    → pop_and_insert idx v xs ≡ take items_to_show (take idx xs ++ v ∷ drop idx xs)
unfolding pop_and_insert
pop_and_insert_lem idx v xs l h = elim (Bool-cases (ltb idx max_idx)) [
  | inl p ↦ rw p (shifted (ltb→lt idx 39 p))
  | inr p ↦ rw p (at_end (ground arith))
]
  where
    shifted :
        idx < 39
        → set
            (take (idx + 1) xs ++ (take (39 - idx) (drop idx xs) ++ drop (idx + 1 + (39 - idx)) xs))
            idx
            v
          ≡ take items_to_show (take idx xs ++ v ∷ drop idx xs)
    shifted q =
        let e : idx + 1 ≡ suc idx = omega arith in
        let e' : suc idx + (39 - idx) ≡ 40 = omega arith in
        rw (e, e') (place 39 idx (39 - idx) v xs l (omega arith))

    at_end : idx ≡ 39 → set xs 39 v ≡ take items_to_show (take idx xs ++ v ∷ drop idx xs)
    at_end q = rw q (set_at_end 39 v xs l)

-- A rank that belongs behind the last place leaves the queue alone.
take-behind :
    (n : ℕ) (r : Rank) (xs : List Rank) → length xs ≡ n → take n (take n xs ++ r ∷ drop n xs) ≡ xs
take-behind zero r [] l = refl
take-behind zero r (x ∷ xs) l = absurd (omega arith)
take-behind (suc n) r [] l = absurd (omega arith)
take-behind (suc n) r (x ∷ xs) l = ap (◌∷◌ x) (take-behind n r xs (omega arith))

module _ (o : LinearOrder rank_gt) where
  -- Where the rank has a place, writing it there is inserting it and dropping the last rank.
  pub pop_and_insert-slot :
      (r : Rank) (xs : List Rank)
      → IsSorted rank_gt xs
      → length xs ≡ items_to_show
      → slot r xs ≤ max_idx
      → pop_and_insert (slot r xs) r xs ≡ take items_to_show (insert rank_gt r xs)
  pop_and_insert-slot r xs s l h =
      pop_and_insert_lem (slot r xs) r xs l h
      ∙ ap (take items_to_show) (sym (insert-slot o r xs s).0)

  -- Where it has none, inserting it and dropping the last rank changes nothing.
  pub insert_behind :
      (r : Rank) (xs : List Rank)
      → IsSorted rank_gt xs
      → length xs ≡ items_to_show
      → slot r xs ≡ items_to_show
      → take items_to_show (insert rank_gt r xs) ≡ xs
  insert_behind r xs s l h =
      ap (take items_to_show) ((insert-slot o r xs s).0 ∙ ap (λ k. take k xs ++ r ∷ drop k xs) h)
      ∙ take-behind items_to_show r xs l

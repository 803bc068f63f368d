-- ===== src/Types/Rank/Laws.antt =====
-- The order of ranks is linear; what a calculator computes.
use vim_clap.Common.{
  Bool, not, ltb, ◌==◌, if◌then◌else◌, zero, suc, ◌∙◌, ◌≤◌, ◌+◌, ap, suc, length-take, store, ◌^◌,
  length, some, ◌<◌, List, ℕ, ◌≡◌, refl, true, false, [], ◌∷◌, arith,
}
use vim_clap.Common.Int.{pos, neg, ℤ, ltb_ℤ}
use vim_clap.Common.Order.{LinearOrder}
use vim_clap.Types.Rank.{
  Rank, rank_gt, RankCriterion, new_calculator, calculate_rank, write_ranks, Score, Rank_default,
  RankCalculator_default, as_score, neg_score,
}

rank_gt_asym : (a b : Rank) → rank_gt a b ≡ true → rank_gt b a ≡ false
unfolding rank_gt
rank_gt_asym [] b h = ground arith
rank_gt_asym (x ∷ xs) [] h = refl
rank_gt_asym (x ∷ xs) (y ∷ ys) h = ground (arith, rank_gt_asym xs ys)

ℤ-eq_of_not_lt : (x y : ℤ) → ltb_ℤ x y ≡ false → ltb_ℤ y x ≡ false → x ≡ y
ℤ-eq_of_not_lt x y h k = ground arith

rank_gt_antisym : (a b : Rank) → rank_gt a b ≡ false → rank_gt b a ≡ false → a ≡ b
unfolding rank_gt
rank_gt_antisym [] [] h k = refl
rank_gt_antisym [] (y ∷ ys) h k = ground arith
rank_gt_antisym (x ∷ xs) [] h k = ground arith
rank_gt_antisym (x ∷ xs) (y ∷ ys) h k = ground (arith, ℤ-eq_of_not_lt x y, rank_gt_antisym xs ys)

rank_gt_trans : (a b c : Rank) → rank_gt a b ≡ true → rank_gt b c ≡ true → rank_gt a c ≡ true
unfolding rank_gt
rank_gt_trans [] b c h k = ground arith
rank_gt_trans (x ∷ xs) [] c h k = ground arith
rank_gt_trans (x ∷ xs) (y ∷ ys) [] h k = refl
rank_gt_trans (x ∷ xs) (y ∷ ys) (z ∷ zs) h k = ground (arith, rank_gt_trans xs ys zs)

pub rank_gt-LinearOrder : LinearOrder rank_gt
rank_gt-LinearOrder = record {
  asym = rank_gt_asym;
  trans = rank_gt_trans;
  antisym = rank_gt_antisym;
}

store_total :
    (rank : Rank) (i : ℕ) (v : Score)
    → i < length rank
    → (r : Rank) × (store rank i v ≡ some r) × (length r ≡ length rank)
store_total [] i v h = absurd (omega arith)
store_total (x ∷ xs) zero v h = (v ∷ xs, refl, refl)
store_total (x ∷ xs) (suc i) v h =
    let (r, e, l) = store_total xs i v (omega arith) in (x ∷ r, rw e, ap suc l)

write_ranks_total :
    (value : RankCriterion → Score) (cs : List RankCriterion) (i : ℕ) (rank : Rank)
    → i + length cs ≤ length rank
    → (r : Rank) × (write_ranks value cs i rank ≡ some r) × (length r ≡ length rank)
unfolding write_ranks
write_ranks_total value [] i rank h = (rank, refl, refl)
write_ranks_total value (c ∷ cs) i rank h =
    let (r, e, l) = store_total rank i (value c) (omega arith) in
    let (r', e', l') = write_ranks_total value cs (suc i) r (omega arith) in
    (r', rw (e, write_ranks) e', l' ∙ l)

-- The criteria of a calculator made by `new` fit the four places of a rank: calculating a rank
-- never runs out of the array, whatever the criteria, and the result has four places.
pub calculate_rank-new_calculator :
    (cs : List RankCriterion) (s : Score) (b e l : ℕ)
    → (rank : Rank) × (calculate_rank (new_calculator cs) s b e l ≡ some rank) × (length rank ≡ 4)
unfolding calculate_rank new_calculator
calculate_rank-new_calculator cs s b e l =
    write_ranks_total _ (new_calculator cs).criteria 0 Rank_default
      (omega (arith, length-take {0} 4))

-- Which of two matches is the better one by the default criteria.
abbrev pub is_better : (s s' : Score) (b b' e e' l l' : ℕ) → Bool
is_better s s' b b' e e' l l' =
    if ltb_ℤ s' s
    then true
    else if ltb_ℤ s s'
    then false
    else if not (b == b')
    then ltb b b'
    else if not (e == e')
    then ltb e e'
    else ltb l l'

rank_gt-head :
    (s s' : Score) (r r' : Rank)
    → rank_gt (s ∷ r) (s' ∷ r')
      ≡ (if ltb_ℤ s' s then true else if ltb_ℤ s s' then false else rank_gt r r')
unfolding rank_gt
rank_gt-head s s' r r' = refl

-- A place of the rank that holds a negated position.
rank_gt-neg :
    (b b' : ℕ) (r r' : Rank)
    → rank_gt (neg (pos b) ∷ r) (neg (pos b') ∷ r')
      ≡ (if not (b == b') then ltb b b' else rank_gt r r')
unfolding rank_gt neg
rank_gt-neg b b' r r' = ground arith

rank_gt-last : (l l' : ℕ) → rank_gt (neg (pos l) ∷ []) (neg (pos l') ∷ []) ≡ ltb l l'
unfolding rank_gt neg
rank_gt-last l l' = ground arith

rank_gt-is_better :
    (s s' : Score) (b b' e e' l l' : ℕ)
    → rank_gt
        (s ∷ neg (pos b) ∷ neg (pos e) ∷ neg (pos l) ∷ [])
        (s' ∷ neg (pos b') ∷ neg (pos e') ∷ neg (pos l') ∷ [])
      ≡ is_better s s' b b' e e' l l'
rank_gt-is_better s s' b b' e e' l l' =
    rw (rank_gt-head s s' _ _, rank_gt-neg b b' _ _, rank_gt-neg e e' _ _, rank_gt-last l l') refl

neg_score-as_score : (n : ℕ) → n < 2 ^ 31 → neg_score (as_score n) ≡ neg (pos n)
unfolding neg_score as_score neg
neg_score-as_score n h = ground arith

calculate_rank-default_lem :
    (s : Score) (b e l : ℕ)
    → b < 2 ^ 31
    → e < 2 ^ 31
    → l < 2 ^ 31
    → calculate_rank RankCalculator_default s b e l
      ≡ some (s ∷ neg (pos b) ∷ neg (pos e) ∷ neg (pos l) ∷ [])
unfolding calculate_rank RankCalculator_default
calculate_rank-default_lem s b e l hb he hl =
    rw (neg_score-as_score b hb, neg_score-as_score e he, neg_score-as_score l hl) refl

-- With the default criteria a match ranks higher than another exactly if its score is greater, or the
-- scores are the same and it begins earlier, or it begins at the same place and ends earlier, or it
-- ends at the same place too and its text is shorter. Positions and lengths are below 2 ^ 31.
pub calculate_rank-default :
    (s s' : Score) (b b' e e' l l' : ℕ) {r r' : Rank}
    → b < 2 ^ 31
    → b' < 2 ^ 31
    → e < 2 ^ 31
    → e' < 2 ^ 31
    → l < 2 ^ 31
    → l' < 2 ^ 31
    → calculate_rank RankCalculator_default s b e l ≡ some r
    → calculate_rank RankCalculator_default s' b' e' l' ≡ some r'
    → rank_gt r r' ≡ is_better s s' b b' e e' l l'
calculate_rank-default s s' b b' e e' l l' {r} {r'} hb hb' he he' hl hl' h h' =
    rw (same, same') (rank_gt-is_better s s' b b' e e' l l')
  where
    same : r ≡ s ∷ neg (pos b) ∷ neg (pos e) ∷ neg (pos l) ∷ []
    same = cc (calculate_rank-default_lem s b e l hb he hl)

    same' : r' ≡ s' ∷ neg (pos b') ∷ neg (pos e') ∷ neg (pos l') ∷ []
    same' = cc (calculate_rank-default_lem s' b' e' l' hb' he' hl')

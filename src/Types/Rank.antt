-- ===== src/Types/Rank.antt =====
-- crates/types/src/matcher.rs: scores, ranks and the calculation of a rank.
pub mod Laws
use vim_clap.Common.{
  ℕ, zero, suc, ◌+◌, ◌==◌, Bool, true, false, not, ◌&&◌, ◌||◌, Option, none, some, List, [], ◌∷◌,
  ◌++◌, if◌then◌else◌, any, take, store, dedup, ltb,
}
use vim_clap.Common.Int.{ℤ, pos, negsuc, wrap_i32, neg, ltb_ℤ, ◌+ℤ◌}
use vim_clap.Common.Order.{sort}
use vim_clap.Text.{Text, Unicode, codes, text_eq}

-- `Score` is `i32`.
abbrev pub Score : Type 0
Score = ℤ

-- `score + other` and `-score` on `i32`, wrapping around, as in a build that checks no overflow.
unfoldable pub add_score : Score → Score → Score
unfolding wrap_i32 ◌+ℤ◌
add_score a b = wrap_i32 (a +ℤ b)

unfoldable pub neg_score : Score → Score
unfolding wrap_i32 neg
neg_score a = wrap_i32 (neg a)

-- `n as i32`
unfoldable pub as_score : ℕ → Score
unfolding wrap_i32
as_score n = wrap_i32 (pos n)

pub data RankCriterion : Type 0 where
  score begin end length : RankCriterion
  negative_score negative_begin negative_end negative_length : RankCriterion

abbrev pub criterion_code : RankCriterion → ℕ
criterion_code score = 0
criterion_code begin = 1
criterion_code end = 2
criterion_code length = 3
criterion_code negative_score = 4
criterion_code negative_begin = 5
criterion_code negative_end = 6
criterion_code negative_length = 7

-- The derived `==`.
abbrev pub criterion_eq : RankCriterion → RankCriterion → Bool
criterion_eq a b = criterion_code a == criterion_code b

unfoldable pub parse_criteria : Unicode → Text → Option RankCriterion
parse_criteria u text =
    let t = u.to_lowercase text in
    if text_eq t (codes "score")
    then some score
    else if text_eq t (codes "begin")
    then some begin
    else if text_eq t (codes "end")
    then some end
    else if text_eq t (codes "length")
    then some length
    else if text_eq t (codes "-score")
    then some negative_score
    else if text_eq t (codes "-begin")
    then some negative_begin
    else if text_eq t (codes "-end")
    then some negative_end
    else if text_eq t (codes "-length")
    then some negative_length
    else none

-- `[Score; 4]`, a list of four.
abbrev pub Rank : Type 0
Rank = List Score

abbrev pub Rank_default : Rank
Rank_default = pos 0 ∷ pos 0 ∷ pos 0 ∷ pos 0 ∷ []

-- `a > b` on arrays: lexicographic.
unfoldable pub rank_gt : Rank → Rank → Bool
rank_gt [] b = false
rank_gt (x ∷ xs) [] = true
rank_gt (x ∷ xs) (y ∷ ys) =
    let rest = rank_gt xs ys in if ltb_ℤ y x then true else if ltb_ℤ x y then false else rest

pub record RankCalculator : Type 0 where
  pub criteria : List RankCriterion

unfoldable pub RankCalculator_default : RankCalculator
RankCalculator_default = record {
  criteria = score ∷ negative_begin ∷ negative_end ∷ negative_length ∷ [];
}

-- `RankCalculator::new`
unfoldable pub new_calculator : List RankCriterion → RankCalculator
new_calculator criteria =
    let scored =
      if not (any (criterion_eq score) criteria) && not (any (criterion_eq negative_score) criteria)
      then score ∷ criteria
      else criteria in
    record { criteria = take 4 (dedup criterion_eq scored) }

-- The value of a criterion, from the score and the `i32`s of the other arguments.
unfoldable pub criterion_value : RankCriterion → Score → Score → Score → Score → Score
unfolding neg_score
criterion_value RankCriterion.score s b e l = s
criterion_value RankCriterion.begin s b e l = b
criterion_value RankCriterion.end s b e l = e
criterion_value RankCriterion.length s b e l = l
criterion_value RankCriterion.negative_score s b e l = neg_score s
criterion_value RankCriterion.negative_begin s b e l = neg_score b
criterion_value RankCriterion.negative_end s b e l = neg_score e
criterion_value RankCriterion.negative_length s b e l = neg_score l

-- The loop over the criteria; `none` is the panic of an index beyond the four places.
unfoldable pub write_ranks : (RankCriterion → Score) → List RankCriterion → ℕ → Rank → Option Rank
write_ranks value [] index rank = some rank
write_ranks value (c ∷ cs) index rank = elim (store rank index (value c)) [
  | none ↦ none
  | some rank' ↦ write_ranks value cs (suc index) rank'
]

unfoldable pub calculate_rank : RankCalculator → Score → ℕ → ℕ → ℕ → Option Rank
unfolding criterion_value write_ranks as_score
calculate_rank r s first_at last_at len =
    write_ranks (λ c. criterion_value c s (as_score first_at) (as_score last_at) (as_score len))
      r.criteria 0 Rank_default

pub record MatchResult : Type 0 where
  pub score : Score
  pub indices : List ℕ

abbrev pub new_match_result : Score → List ℕ → MatchResult
new_match_result s is = record { score = s; indices = is }

unfoldable pub add_to_score : MatchResult → Score → MatchResult
unfolding add_score
add_to_score m s = record m { score = add_score m.score s }

-- `sort_unstable` and `dedup` on positions.
unfoldable pub sort_dedup : List ℕ → List ℕ
unfolding sort
sort_dedup xs = dedup ◌==◌ (sort ltb xs)

unfoldable pub extend_indices : MatchResult → List ℕ → MatchResult
unfolding sort_dedup
extend_indices m more = record m { indices = sort_dedup (m.indices ++ more) }

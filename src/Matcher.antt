-- ===== src/Matcher.antt =====
-- crates/matcher/src/lib.rs: the matcher that a query builds, and what it makes of an item and of a line.
-- What the code calls of other crates is in `Crates`.
pub mod Inverse
pub mod Substring
pub mod Exact
pub mod Word
pub mod Fuzzy
pub mod Bonuses
pub mod Sound
pub mod Accepts
pub mod Narrow
pub mod Positions
pub mod Case
use vim_clap.Common.{
  ℕ, Bool, true, false, Option, none, some, List, [], ◌∷◌, ◌++◌, if◌then◌else◌, is_empty, ◌||◌,
  first, last,
}
use vim_clap.Common.Int.{pos}
use vim_clap.Common.Options.{◌>>=◌}
use vim_clap.Text.{Text, Unicode, byte_len}
use vim_clap.Types.Rank.{
  Score, Rank, RankCriterion, RankCalculator, RankCalculator_default, new_calculator,
  calculate_rank, MatchResult, new_match_result, add_to_score, extend_indices, sort_dedup,
  add_score,
}
use vim_clap.Types.Scope.{CaseMatching, smart, MatchScope, full, new_fuzzy_text}
use vim_clap.Types.SearchTerm.{InverseTerm}
use vim_clap.Types.Query.{Query}
use vim_clap.Types.Item.{ClapItem, Extractors}
use vim_clap.Types.SourceItem.{MatchedItem, new_item}
use vim_clap.Matcher.Inverse.{match_any}
use vim_clap.Matcher.Substring.{Float}
use vim_clap.Matcher.Exact.{ExactMatcher, find_exact_matches}
use vim_clap.Matcher.Word.{RegexCrate, WordMatcher, new_word_matcher, find_word_matches}
use vim_clap.Matcher.Fuzzy.{
  FuzzyAlgorithm, fzy, Algorithms, FuzzyMatcher, find_fuzzy_matches, match_fuzzy_text,
}
use vim_clap.Matcher.Bonuses.{Bonus, CodeTools, calc_item_bonus, calc_text_bonus}

pub record Crates (F : Type 0) (Regex : Type 0) : Type 0 where
  pub unicode : Unicode
  pub float : Float F
  pub regex : RegexCrate Regex
  pub algorithms : Algorithms
  pub extractors : Extractors
  pub code_tools : CodeTools

pub record MatcherBuilder : Type 0 where
  pub bonuses : List Bonus
  pub fuzzy_algo : FuzzyAlgorithm
  pub match_scope : MatchScope
  pub case_matching : CaseMatching
  pub rank_criteria : List RankCriterion

-- `MatcherBuilder::new`
abbrev pub new_builder : MatcherBuilder
new_builder = record {
  bonuses = [];
  fuzzy_algo = fzy;
  match_scope = full;
  case_matching = smart;
  rank_criteria = [];
}

pub record Matcher (Regex : Type 0) : Type 0 where
  pub inverse_matcher : List InverseTerm
  pub word_matcher : WordMatcher Regex
  pub exact_matcher : ExactMatcher
  pub fuzzy_matcher : FuzzyMatcher
  pub bonus_matcher : List Bonus
  pub rank_calculator : RankCalculator

-- What a matcher makes of an item. `panicked` is the index out of bounds in `calculate_rank`, or a slice in a
-- method of the item that is out of range, which is found where the item is made from a line
-- (`match_or_panic` of Filter/Parallel/Lines). A division asks for a divisor above 0, so that it cannot
-- panic; an `i32` wraps, as it does in a release build.
pub data Outcome (A : Type 0) : Type 0 where
  no_match : Outcome A
  matched : A → Outcome A
  panicked : Outcome A

module _ {A B : Type 0} where
  -- Nothing found is the early return.
  abbrev pub when_found : Option B → (B → Outcome A) → Outcome A
  when_found none f = no_match
  when_found (some b) f = f b

  -- `none` is the panic of `calculate_rank`.
  abbrev pub when_ranked : Option B → (B → A) → Outcome A
  when_ranked none f = panicked
  when_ranked (some b) f = matched (f b)

pub record MatchedFileResult : Type 0 where
  pub rank : Rank
  pub exact_indices : List ℕ
  pub fuzzy_indices : List ℕ

-- What the matchers before the bonus find: score and positions.
pub record Found : Type 0 where
  pub word : Score × List ℕ
  pub exact : Score × List ℕ
  pub fuzzy : Score × List ℕ

abbrev pub first_or_zero : List ℕ → ℕ
first_or_zero is = elim (first is) [ none ↦ 0 | some i ↦ i ]

abbrev pub last_or_zero : List ℕ → ℕ
last_or_zero is = elim (last is) [ none ↦ 0 | some i ↦ i ]

-- `indices.first()` of the first list, and where there is none, of the second; `0` where there is none.
abbrev pub first_of : List ℕ → List ℕ → ℕ
first_of is js = elim (first is) [ none ↦ first_or_zero js | some i ↦ i ]

abbrev pub last_of : List ℕ → List ℕ → ℕ
last_of is js = elim (last is) [ none ↦ last_or_zero js | some i ↦ i ]

module _ {F Regex : Type 0} (k : Crates F Regex) where
  -- `MatcherBuilder::build`
  unfoldable pub build : MatcherBuilder → Query → Matcher Regex
  unfolding new_word_matcher new_calculator RankCalculator_default
  build b q = record {
    inverse_matcher = q.inverse_terms;
    word_matcher = new_word_matcher k.regex q.word_terms;
    exact_matcher = record { exact_terms = q.exact_terms; case_matching = b.case_matching };
    fuzzy_matcher = record {
      match_scope = b.match_scope;
      fuzzy_algo = b.fuzzy_algo;
      fuzzy_terms = q.fuzzy_terms;
      case_matching = b.case_matching;
    };
    bonus_matcher = b.bonuses;
    rank_calculator =
        if is_empty b.rank_criteria then RankCalculator_default else new_calculator b.rank_criteria;
  }

  -- The words, if the matcher has any.
  unfoldable pub find_words_in : WordMatcher Regex → Text → Option (Score × List ℕ)
  unfolding find_word_matches
  find_words_in word_matcher text =
      if is_empty word_matcher
      then some (pos 0, [])
      else find_word_matches k.regex word_matcher text

  unfoldable pub find_exact_in : Matcher Regex → Text → Option (Score × List ℕ)
  unfolding find_exact_matches
  find_exact_in m text =
      find_exact_matches k.unicode k.float m.exact_matcher.case_matching m.exact_matcher.exact_terms
        text

  -- The guards of `match_item`: `none` is each of its early returns.
  unfoldable pub find_in_item : Matcher Regex → ClapItem → Option Found
  unfolding match_any find_words_in find_exact_in find_fuzzy_matches
  find_in_item m item =
      if is_empty item.match_text
      then none
      else if match_any m.inverse_matcher item.match_text
      then none
      else (do
        word ← find_words_in m.word_matcher item.match_text
        exact ← find_exact_in m item.match_text
        fuzzy ← find_fuzzy_matches k.algorithms m.fuzzy_matcher item
        some (record { word = word; exact = exact; fuzzy = fuzzy }))

  -- The merge of the results in `match_item`.
  unfoldable pub merge : Matcher Regex → ClapItem → Found → MatchResult
  unfolding calc_item_bonus add_score sort_dedup add_to_score extend_indices
  merge m item f =
      let exact_indices = sort_dedup f.exact.1 in
      let fuzzy_indices = sort_dedup f.fuzzy.1 in
      let bonus : Score → List ℕ → Score =
        calc_item_bonus k.extractors k.code_tools m.bonus_matcher item in
      let of_exact =
        new_match_result (add_score f.exact.0 (bonus f.exact.0 exact_indices)) exact_indices in
      let of_both =
        new_match_result (add_score (add_score f.exact.0 (bonus f.fuzzy.0 fuzzy_indices)) f.fuzzy.0)
          (sort_dedup (f.exact.1 ++ fuzzy_indices)) in
      let merged = if is_empty f.fuzzy.1 then of_exact else of_both in
      if is_empty f.word.1 then merged else extend_indices (add_to_score merged f.word.0) f.word.1

  unfoldable pub rank_item : Matcher Regex → ClapItem → MatchResult → Outcome (MatchedItem ClapItem)
  unfolding calculate_rank byte_len new_item
  rank_item m item r =
      let rank =
        calculate_rank m.rank_calculator r.score (first_or_zero r.indices) (last_or_zero r.indices)
          (byte_len item.raw_text) in
      when_ranked rank λ rank. new_item item rank r.indices

  unfoldable pub match_item : Matcher Regex → ClapItem → Outcome (MatchedItem ClapItem)
  unfolding find_in_item merge rank_item
  match_item m item =
      when_found (find_in_item m item)
        λ f. rank_item m item (item.match_result_callback (merge m item f))

  -- The results of the matchers on the path and on the line; whether the path has the exact terms.
  unfoldable pub find_in_path : Matcher Regex → Text → Text → Option ((Score × List ℕ) × Bool)
  unfolding find_exact_in
  find_in_path m path line = elim (find_exact_in m path) [
    | some r ↦ some (r, true)
    | none ↦ elim (find_exact_in m line) [ none ↦ none | some r ↦ some (r, false) ]
  ]

  -- The guards of `match_file_result`; `path.to_str()` is `none` for a path that is not UTF-8.
  unfoldable pub find_in_file : Matcher Regex → Option Text → Text → Option (Found × Bool)
  unfolding match_any find_words_in find_in_path match_fuzzy_text add_score
  find_in_file m path? line = if is_empty line then none else (do
    path ← path?
    word ←
        (if match_any m.inverse_matcher line || match_any m.inverse_matcher path
          then none
          else find_words_in m.word_matcher line)
    (exact, in_path) ← find_in_path m path line
    fuzzy ← match_fuzzy_text k.algorithms m.fuzzy_matcher (new_fuzzy_text line 0)
    some (record { word = word; exact = exact; fuzzy = with_word word fuzzy }, in_path))
    where
      with_word : Score × List ℕ → Score × List ℕ → Score × List ℕ
      with_word (word_score, word_indices) (score, indices) =
          if is_empty word_indices
          then (score, indices)
          else (add_score score word_score, indices ++ word_indices)

  -- The merge of the results in `match_file_result`: score, exact and fuzzy positions.
  unfoldable pub merge_file : Matcher Regex → Text → Found → Bool → Score × List ℕ × List ℕ
  unfolding calc_text_bonus add_score sort_dedup
  merge_file m line f in_path =
      let exact_indices = sort_dedup f.exact.1 in
      let fuzzy_indices = sort_dedup f.fuzzy.1 in
      let bonus : Score → List ℕ → Score =
        calc_text_bonus k.extractors k.code_tools m.bonus_matcher line in
      let exact_score = add_score f.exact.0 (bonus f.exact.0 f.exact.1) in
      let both_score = add_score (add_score f.exact.0 (bonus f.fuzzy.0 fuzzy_indices)) f.fuzzy.0 in
      if is_empty f.fuzzy.1
      then (if in_path then (exact_score, exact_indices, []) else (exact_score, [], exact_indices))
      else if in_path
      then (both_score, f.exact.1, fuzzy_indices)
      else (both_score, [], sort_dedup (f.exact.1 ++ fuzzy_indices))

  unfoldable pub rank_file :
      Matcher Regex → Text → Score × List ℕ × List ℕ → Outcome MatchedFileResult
  unfolding calculate_rank byte_len
  rank_file m line (score, exact_indices, fuzzy_indices) =
      let rank =
        calculate_rank m.rank_calculator score (first_of exact_indices fuzzy_indices)
          (last_of fuzzy_indices exact_indices) (byte_len line) in
      when_ranked rank
        λ rank. record { rank = rank; exact_indices = exact_indices; fuzzy_indices = fuzzy_indices }

  unfoldable pub match_file_result : Matcher Regex → Option Text → Text → Outcome MatchedFileResult
  unfolding find_in_file merge_file rank_file
  match_file_result m path? line =
      when_found (find_in_file m path? line)
        λ (f, in_path). rank_file m line (merge_file m line f in_path)

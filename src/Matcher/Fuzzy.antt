-- ===== src/Matcher/Fuzzy.antt =====
-- crates/matcher/src/algo/mod.rs and crates/matcher/src/matchers/fuzzy_matcher.rs. The algorithms are
-- those of other projects (fzy, skim, fzf, nucleo), a parameter.
use mathlib.Core.Option
use vim_clap.Common.{ℕ, ◌+◌, Option, some, List, [], ◌∷◌, ◌++◌, map, if◌then◌else◌}
use vim_clap.Common.Int.{pos}
use vim_clap.Common.Options.{◌>>=◌}
use vim_clap.Text.{Text, Unicode, codes, text_eq}
use vim_clap.Types.Rank.{Score, MatchResult, add_score}
use vim_clap.Types.Scope.{CaseMatching, MatchScope, FuzzyText}
use vim_clap.Types.SearchTerm.{FuzzyTerm}
use vim_clap.Types.Item.{ClapItem}

pub data FuzzyAlgorithm : Type 0 where
  fzy skim fzf_v2 nucleo : FuzzyAlgorithm

-- `From<T> for FuzzyAlgorithm`
unfoldable pub parse_algorithm : Unicode → Text → FuzzyAlgorithm
parse_algorithm u text =
    let t = u.to_lowercase text in
    if text_eq t (codes "skim")
    then skim
    else if text_eq t (codes "fzy")
    then fzy
    else if text_eq t (codes "fzf-v2")
    then fzf_v2
    else if text_eq t (codes "nucleo")
    then nucleo
    else fzy

-- `fuzzy_indices` of each algorithm, of the text and the query.
pub record Algorithms : Type 0 where
  pub fzy_indices : Text → Text → CaseMatching → Option MatchResult
  pub skim_indices : Text → Text → CaseMatching → Option MatchResult
  pub fzf_indices : Text → Text → Option MatchResult
  pub nucleo_indices : Text → Text → CaseMatching → Option MatchResult

abbrev pub run_algorithm :
    Algorithms → FuzzyAlgorithm → Text → Text → CaseMatching → Option MatchResult
run_algorithm a fzy text query c = a.fzy_indices text query c
run_algorithm a skim text query c = a.skim_indices text query c
run_algorithm a fzf_v2 text query c = a.fzf_indices text query
run_algorithm a nucleo text query c = a.nucleo_indices text query c

unfoldable pub fuzzy_match :
    Algorithms → FuzzyAlgorithm → Text → FuzzyText → CaseMatching → Option MatchResult
fuzzy_match a algo query fuzzy_text case_matching =
    Option.map {A = MatchResult}
      (λ r. record r { indices = map (λ x. x + fuzzy_text.matching_start) r.indices })
      (run_algorithm a algo fuzzy_text.text query case_matching)

pub record FuzzyMatcher : Type 0 where
  pub match_scope : MatchScope
  pub fuzzy_algo : FuzzyAlgorithm
  pub fuzzy_terms : List FuzzyTerm
  pub case_matching : CaseMatching

module _ (a : Algorithms) where
  -- The loop over the terms.
  unfoldable pub match_fuzzy_terms :
      FuzzyMatcher → FuzzyText → List FuzzyTerm → Score → List ℕ → Option (Score × List ℕ)
  unfolding fuzzy_match add_score
  match_fuzzy_terms m text [] score indices = some (score, indices)
  match_fuzzy_terms m text (t ∷ ts) score indices = do
    r ← fuzzy_match a m.fuzzy_algo t.text text m.case_matching
    match_fuzzy_terms m text ts (add_score score r.score) (indices ++ r.indices)

  unfoldable pub match_fuzzy_text : FuzzyMatcher → FuzzyText → Option (Score × List ℕ)
  unfolding match_fuzzy_terms
  match_fuzzy_text m text = match_fuzzy_terms m text m.fuzzy_terms (pos 0) []

  -- `FuzzyMatcher::find_matches`
  unfoldable pub find_fuzzy_matches : FuzzyMatcher → ClapItem → Option (Score × List ℕ)
  unfolding match_fuzzy_text
  find_fuzzy_matches m item = do text ← item.fuzzy_text m.match_scope; match_fuzzy_text m text

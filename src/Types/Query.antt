-- ===== src/Types/Query.antt =====
-- crates/types/src/query.rs: the terms of an input, by their kinds.
pub mod Terms
use vim_clap.Common.{ℕ, ◌+◌, List, [], ◌∷◌, ◌++◌, map}
use vim_clap.Text.{Text, split_whitespace}
use vim_clap.Types.SearchTerm.{
  SearchTerm, WordTerm, ExactTerm, FuzzyTerm, InverseTerm, TermType, parse_term, len,
}

pub record Query : Type 0 where
  pub word_terms : List WordTerm
  pub exact_terms : List ExactTerm
  pub fuzzy_terms : List FuzzyTerm
  pub inverse_terms : List InverseTerm

abbrev pub empty_query : Query
empty_query = record { word_terms = []; exact_terms = []; fuzzy_terms = []; inverse_terms = [] }

-- The body of the loop: the term is pushed to the terms of its kind.
unfoldable pub push_term : SearchTerm → Query → Query
push_term t q = elim (t.ty) [
  | TermType.word ↦ record q { word_terms = q.word_terms ++ record { text = t.text } ∷ [] }
  | TermType.exact ty ↦ record q {
    exact_terms = q.exact_terms ++ record { ty = ty; text = t.text } ∷ [];
  }
  | TermType.fuzzy ty ↦ record q {
    fuzzy_terms = q.fuzzy_terms ++ record { ty = ty; text = t.text } ∷ [];
  }
  | TermType.inverse ty ↦ record q {
    inverse_terms = q.inverse_terms ++ record { ty = ty; text = t.text } ∷ [];
  }
]

unfoldable pub push_tokens : List Text → Query → Query
unfolding push_term parse_term
push_tokens [] q = q
push_tokens (token ∷ tokens) q = push_tokens tokens (push_term (parse_term token) q)

-- `From<T> for Query`
unfoldable pub parse_query : Text → Query
unfolding push_tokens split_whitespace
parse_query query = push_tokens (split_whitespace query) empty_query

abbrev pub sum : List ℕ → ℕ
sum [] = 0
sum (n ∷ ns) = n + sum ns

unfoldable pub fuzzy_len : Query → ℕ
unfolding len
fuzzy_len q = sum (map len q.fuzzy_terms)

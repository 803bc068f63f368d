-- ===== src/Matcher/Inverse.antt =====
-- crates/matcher/src/matchers/inverse_matcher.rs
use vim_clap.Common.{Bool, List, any}
use vim_clap.Text.{Text}
use vim_clap.Types.SearchTerm.{InverseTerm, exact_matched}

-- `InverseMatcher` is its terms.
unfoldable pub match_any : List InverseTerm → Text → Bool
unfolding exact_matched
match_any inverse_terms match_text = any (λ t. exact_matched t match_text) inverse_terms

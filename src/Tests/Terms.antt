-- ===== src/Tests/Terms.antt =====
-- Terms and queries, after the test `parse_term_should_work`.
use vim_clap.Common.{◌≡◌, ◌+◌, refl, map, length}
use vim_clap.Text.{Text, codes, split_whitespace, strip_prefix, strip_suffix}
use vim_clap.Types.SearchTerm.{
  InverseTerm, inverse_exact, inverse_suffix_exact, inverse, new_term, parse_term, parse_inverse,
}
use vim_clap.Types.SearchTerm.Print.{print_term, print_term-parse_term}
use vim_clap.Types.Query.{parse_query}
use vim_clap.Types.Query.Terms.{words, exacts, fuzzies, inverses, parse_query-terms}

parsed_hhh : parse_term (codes "!hhh$") ≡ new_term (inverse inverse_suffix_exact) (codes "hhh")
unfolding parse_term parse_inverse strip_prefix strip_suffix
parsed_hhh = refl

print_term-parse_term_example : print_term (parse_term (codes "!hhh$")) ≡ codes "!hhh$"
print_term-parse_term_example = print_term-parse_term (codes "!hhh$")

abbrev input : Text
input = codes "aaa 'bbb ^ccc ddd$ !eee \"iii"

parse_query-terms_example :
    ((parse_query input).word_terms ≡ words (map parse_term (split_whitespace input)))
    × ((parse_query input).exact_terms ≡ exacts (map parse_term (split_whitespace input)))
    × ((parse_query input).fuzzy_terms ≡ fuzzies (map parse_term (split_whitespace input)))
    × ((parse_query input).inverse_terms ≡ inverses (map parse_term (split_whitespace input)))
    × (length (parse_query input).word_terms
          + length (parse_query input).exact_terms
          + length (parse_query input).fuzzy_terms
          + length (parse_query input).inverse_terms
        ≡ length (split_whitespace input))
parse_query-terms_example = parse_query-terms input

abbrev longer : InverseTerm
longer = record { ty = inverse_exact; text = codes "fire" }

abbrev shorter : InverseTerm
shorter = record { ty = inverse_exact; text = codes "fi" }

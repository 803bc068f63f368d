-- ===== src/Tests/Matching.antt =====
-- Matching an item: the tables and the algorithms of other crates are simple ones.
use mathlib.Core.Option
use vim_clap.Common.{ap, Option, arith, ℕ, ◌+◌, ◌-◌, ◌≡◌, refl, true, false, none, some, [], ◌∷◌}
use vim_clap.Common.Int.{max_ℤ, pos, negsuc}
use vim_clap.Common.Order.{insert}
use vim_clap.Text.{Text, Unicode, codes, find, byte_len}
use vim_clap.Types.Rank.{MatchResult}
use vim_clap.Types.SearchTerm.{SearchTerm, ExactTermType, TermType, new_term}
use vim_clap.Types.Query.{empty_query, push_term}
use vim_clap.Types.Item.{ClapItem, Extractors, text_item}
use vim_clap.Types.SourceItem.{new_item}
use vim_clap.Matcher.Substring.{Float}
use vim_clap.Matcher.{Crates, build, new_builder, match_item, matched}
use vim_clap.Matcher.Sound.{accepts}
use vim_clap.Matcher.Accepts.{is_matched, match_item-accepts}
use vim_clap.Matcher.Narrow.{match_item-push_term}
use vim_clap.Matcher.Positions.{IsIncreasing, match_item-IsIncreasing}

-- ASCII without uppercase chars.
abbrev lowercase : Unicode
lowercase = record { to_lowercase = λ t. t; is_uppercase = λ c. false }

abbrev whole_numbers : Float ℕ
whole_numbers = record {
  of_nat = λ n. n;
  add = λ a b. a + b;
  sub = λ a b. a - b;
  div = λ a b. 0;
  as_score = λ a. pos a;
}

-- A query is matched where it stands in the text.
abbrev by_find : Text → Text → Option MatchResult
by_find text query =
    Option.map {B = MatchResult} (λ i. record { score = pos 1; indices = i ∷ [] }) (find text query)

abbrev pub extractors : Extractors
extractors = record {
  extract_tag_name = λ t. none;
  extract_file_name = λ t. some (t, 0);
  extract_grep_pattern = λ t. none;
  parse_grep_item = λ t. none;
}

abbrev pub crates : Crates ℕ Text
crates = record {
  unicode = lowercase;
  float = whole_numbers;
  regex = record {
    build = λ t. some t;
    find_at = λ r line. Option.map (λ i. (i, i + byte_len r)) (find line r);
  };
  algorithms = record {
    fzy_indices = λ t q c. by_find t q;
    skim_indices = λ t q c. by_find t q;
    fzf_indices = by_find;
    nucleo_indices = λ t q c. by_find t q;
  };
  extractors = extractors;
  code_tools = record { line_comments = λ ext. none };
}

abbrev foo : ClapItem
foo = text_item extractors (codes "foo")

abbrev pub oo : SearchTerm
oo = new_term (TermType.exact ExactTermType.exact) (codes "oo")

match_item-accepts_example :
    is_matched (match_item crates (build crates new_builder (push_term oo empty_query)) foo)
    ≡ accepts crates (build crates new_builder (push_term oo empty_query)) foo
match_item-accepts_example = match_item-accepts crates new_builder (push_term oo empty_query) foo

foo_found :
    match_item crates (build crates new_builder (push_term oo empty_query)) foo
    ≡ matched (new_item foo (pos 172 ∷ negsuc 0 ∷ negsuc 1 ∷ negsuc 2 ∷ []) (1 ∷ 2 ∷ []))
unfolding match_item build push_term new_item text_item insert max_ℤ
foo_found = refl

match_item-push_term_example :
    is_matched (match_item crates (build crates new_builder empty_query) foo) ≡ true
match_item-push_term_example =
    match_item-push_term crates new_builder empty_query foo oo (λ h. ground arith)
      (ap is_matched foo_found)

match_item-IsIncreasing_example : IsIncreasing (1 ∷ 2 ∷ [])
unfolding new_item text_item
match_item-IsIncreasing_example =
    match_item-IsIncreasing crates new_builder (push_term oo empty_query) foo (λ r. refl) foo_found

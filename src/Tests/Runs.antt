-- ===== src/Tests/Runs.antt =====
-- A run over two lines, of which one matches.
use mathlib.Core.Option
use vim_clap.Printer.{no_icon}
use vim_clap.Common.{true, Bool, false, ℕ, ◌≡◌, refl, Option, none, some, List, [], ◌∷◌, length}
use vim_clap.Common.Order.{insert}
use vim_clap.Text.{Text, codes}
use vim_clap.Types.Query.{Query, empty_query, push_term}
use vim_clap.Types.Item.{ClapItem, text_item}
use vim_clap.Matcher.{build, new_builder}
use vim_clap.Filter.Parallel.{on_finished, Printer}
use vim_clap.Filter.Parallel.Lines.{
  lines, ParSourceInner, Counted, outcomes_of, process_outcomes, new_counted, par_dyn_run_inner,
}
use vim_clap.Filter.Parallel.Lines.Best.{found_ranks}
use vim_clap.Filter.Parallel.Lines.Stop.{before_stop}
use vim_clap.Tests.Matching.{extractors, crates, oo}

abbrev plain : Printer ClapItem
plain = record {
  char_width = λ c. some 1;
  icons = record { add_icon_to_text = λ t. t; icon = λ i. none };
  output_text = λ i. i.output_text;
  truncation_offset = λ i. none;
  config = record { line_width = 80; icon = no_icon; truncate_text = true };
}

position : Option (Text × ℕ) → ℕ
position none = 0
position (some p) = p.1

abbrev query : Query
query = push_term oo empty_query

abbrev two_lines : List (ℕ × Text)
two_lines = (10, codes "bar") ∷ (20, codes "foo") ∷ []

abbrev two : ParSourceInner
two = lines two_lines

one_matches : length (found_ranks (outcomes_of crates (build crates new_builder query) two)) ≡ 1
unfolding build push_term outcomes_of
one_matches = refl

-- The first of the two: the line that matches is shown.
one_line :
    Option.map (λ r. r.1) (par_dyn_run_inner crates plain new_builder query 0 1 200 two)
    ≡ some (
        on_finished
          (record {
            lines = codes "foo" ∷ [];
            indices = (1 ∷ 2 ∷ []) ∷ [];
            truncated_map = [];
            icon_added = false;
          })
          1
          2)
unfolding par_dyn_run_inner push_term insert
one_line = refl

abbrev two_items : List (ℕ × ClapItem)
two_items = (10, text_item extractors (codes "bar")) ∷ (20, text_item extractors (codes "foo")) ∷ []

-- The signal is set when the second line is read.
abbrev signalled : List (Bool × ℕ × Text)
signalled = (false, 10, codes "foo") ∷ (true, 20, codes "bar") ∷ []

abbrev told : Option (Counted crates plain)
told =
    process_outcomes crates plain
      (outcomes_of crates (build crates new_builder query) (lines (before_stop signalled)))
      (new_counted crates plain 0 1 200)

-- ===== src/Filter/Parallel/Lines/Best.antt =====
-- `par_dyn_run_inner` of crates/filter/src/parallel_worker.rs: the ranks that a run ends with.
use vim_clap.Common.{Option, none, ℕ, suc, ◌+◌, ◌≡◌, some, List, [], ◌∷◌, ◌++◌, take, length}
use mathlib.Core.Option
use vim_clap.Printer.{DisplayLines}
use vim_clap.Common.Order.{sort}
use vim_clap.Types.Rank.{Rank, rank_gt}
use vim_clap.Types.Query.{Query}
use vim_clap.Types.Item.{ClapItem}
use vim_clap.Types.SourceItem.{MatchedItem}
use vim_clap.Matcher.{Crates, Matcher, MatcherBuilder, build, Outcome, no_match, matched, panicked}
use vim_clap.Filter.Sequential.Start.{ranks}
use vim_clap.Filter.Parallel.{on_finished, Printer, Progress, print}
use vim_clap.Filter.Parallel.Best.{IsBest}
use vim_clap.Filter.Parallel.Lines.{
  items, lines, ParSourceInner, process_outcomes, outcomes_of, Counted, process_outcome,
  par_dyn_run_inner,
}

abbrev pub outcome_ranks : Outcome (MatchedItem ClapItem) → List Rank
outcome_ranks no_match = []
outcome_ranks (matched item) = item.rank ∷ []
outcome_ranks panicked = []

abbrev pub source_length : ParSourceInner → ℕ
source_length (items xs) = length xs
source_length (lines xs) = length xs

-- The ranks of what matches.
abbrev pub found_ranks : List (ℕ × Outcome (MatchedItem ClapItem)) → List Rank
found_ranks [] = []
found_ranks ((now, o) ∷ os) = outcome_ranks o ++ found_ranks os

module _ {F Regex : Type 0} (k : Crates F Regex) where
  module _ (printer : Printer ClapItem) where
    -- What a line leaves behind.
    pub record Told (o : Outcome (MatchedItem ClapItem)) (now : ℕ) (c : Counted k printer)
        (done : List Rank) : Type 0 where
      pub after : Counted k printer
      pub returned : process_outcome k printer now o c ≡ some after
      pub best : IsBest after.best_items
      pub processed : after.processed_count ≡ suc c.processed_count
      pub more : after.matched_count ≡ c.matched_count + length (outcome_ranks o)
      pub capacity : after.best_items.max_capacity ≡ c.best_items.max_capacity
      pub ranked :
          ranks after.best_items.items
          ≡ take after.best_items.max_capacity (sort rank_gt (done ++ outcome_ranks o))

    -- A match that is told panics, since the printer does on the best items.
    record Untold (o : Outcome (MatchedItem ClapItem)) (now : ℕ) (c : Counted k printer)
        (done : List Rank) : Type 0 where
      shown : List (MatchedItem ClapItem)
      returned : process_outcome k printer now o c ≡ none
      unprinted : print printer shown ≡ none
      ranked : ranks shown ≡ take c.best_items.max_capacity (sort rank_gt (done ++ outcome_ranks o))

    -- All the outcomes are told, and the best ranks stay.
    abbrev AllTold :
        List (ℕ × Outcome (MatchedItem ClapItem)) → Counted k printer → List Rank → Type 0
    AllTold os c done =
        (r : Counted k printer) × (process_outcomes k printer os c ≡ some r)
        × (r.processed_count ≡ c.processed_count + length os)
        × (r.matched_count ≡ c.matched_count + length (found_ranks os))
        × (ranks r.best_items.items
            ≡ take c.best_items.max_capacity (sort rank_gt (done ++ found_ranks os)))

    -- The printer panics on the best items of the first outcomes.
    abbrev SomeUntold :
        List (ℕ × Outcome (MatchedItem ClapItem)) → Counted k printer → List Rank → Type 0
    SomeUntold os c done =
        (i : ℕ) × (shown : List (MatchedItem ClapItem)) × (process_outcomes k printer os c ≡ none)
        × (print printer shown ≡ none)
        × (ranks shown
            ≡ take c.best_items.max_capacity (sort rank_gt (done ++ found_ranks (take i os))))

    abbrev with_progress : Counted k printer → Progress → Option (Counted k printer × Progress)
    with_progress c p = some (c, p)

    abbrev finished_with : Counted k printer → ℕ → ℕ → DisplayLines → Counted k printer × Progress
    finished_with c m n d = (c, on_finished d m n)

    -- What a run shows at the end: the best items, with the numbers of what matched and was processed.
    abbrev pub ShowsBest : MatcherBuilder → Query → ℕ → ℕ → ℕ → ParSourceInner → Type 0
    ShowsBest builder query now number interval source =
        let outcomes = outcomes_of k (build k builder query) source in
        (c : Counted k printer) × (d : DisplayLines) × (par_dyn_run_inner k printer builder query
            now number interval source
          ≡ some (c, on_finished d (length (found_ranks outcomes)) (source_length source)))
        × (print printer c.best_items.items ≡ some d)
        × (ranks c.best_items.items ≡ take number (sort rank_gt (found_ranks outcomes)))

    -- The run panics, and the printer does on the best items of the first outcomes.
    abbrev pub PanicsPrinting : MatcherBuilder → Query → ℕ → ℕ → ℕ → ParSourceInner → Type 0
    PanicsPrinting builder query now number interval source =
        let outcomes = outcomes_of k (build k builder query) source in
        (i : ℕ) × (shown : List (MatchedItem ClapItem)) × (par_dyn_run_inner k printer builder query
            now number interval source
          ≡ none)
        × (print printer shown ≡ none)
        × (ranks shown ≡ take number (sort rank_gt (found_ranks (take i outcomes))))

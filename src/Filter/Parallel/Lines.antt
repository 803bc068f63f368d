-- ===== src/Filter/Parallel/Lines.antt =====
-- `par_dyn_run_inner` and `par_dyn_run_inprocess` of crates/filter/src/parallel_worker.rs: each line is made an
-- item, matched, and told to the best items. The lines and items stand in the order in which the threads finish
-- them; the numbers are counted in that order. `none` is a panic.
pub mod Total
pub mod Best
pub mod Stop
use mathlib.Core.Option
use vim_clap.Common.{
  Bool, true, false, if◌then◌else◌, map, ℕ, suc, Option, none, some, List, [], ◌∷◌, ◌++◌,
}
use vim_clap.Common.Options.{◌>>=◌}
use vim_clap.Text.{Text}
use vim_clap.Types.Query.{Query}
use vim_clap.Types.Item.{
  ClapItem, Extractors, LineItem, to_clap_item, grep_clap_item, file_name_clap_item,
  source_clap_item,
}
use vim_clap.Types.SourceItem.{MatchedItem}
use vim_clap.Matcher.{
  Crates, Matcher, MatcherBuilder, build, Outcome, no_match, matched, panicked, match_item,
}
use vim_clap.Filter.Parallel.{Printer, Progress, BestItems, new_best_items, on_new_match, finish}

-- The methods of an item; `none` is the panic of a slice.
unfoldable pub clap_item_of : Extractors → LineItem → Option ClapItem
unfolding grep_clap_item file_name_clap_item source_clap_item
clap_item_of ex (LineItem.grep g) = grep_clap_item ex g
clap_item_of ex (LineItem.file f) = file_name_clap_item ex f
clap_item_of ex (LineItem.source s) = some (source_clap_item ex s)

-- The items or the lines, each with the time at which it is told to the best items.
pub data ParSourceInner : Type 0 where
  items : List (ℕ × ClapItem) → ParSourceInner
  lines : List (ℕ × Text) → ParSourceInner

module _ {F Regex : Type 0} (k : Crates F Regex) where
  abbrev pub match_or_panic : Matcher Regex → Option ClapItem → Outcome (MatchedItem ClapItem)
  match_or_panic m none = panicked
  match_or_panic m (some item) = match_item k m item

  abbrev pub match_if_item : Matcher Regex → Option LineItem → Outcome (MatchedItem ClapItem)
  match_if_item m none = no_match
  match_if_item m (some item) = match_or_panic m (clap_item_of k.extractors item)

  unfoldable pub match_line : Matcher Regex → Text → Outcome (MatchedItem ClapItem)
  unfolding to_clap_item clap_item_of match_item
  match_line m line = match_if_item m (to_clap_item k.extractors m.fuzzy_matcher.match_scope line)

  unfoldable pub outcomes_of :
      Matcher Regex → ParSourceInner → List (ℕ × Outcome (MatchedItem ClapItem))
  unfolding match_item match_line
  outcomes_of m (items xs) = map (λ (now, item). (now, match_item k m item)) xs
  outcomes_of m (lines xs) = map (λ (now, line). (now, match_line m line)) xs

  module _ (printer : Printer ClapItem) where
    -- The numbers that are matched and processed, the best items, and the calls of the progressor.
    pub record Counted : Type 0 where
      pub matched_count : ℕ
      pub processed_count : ℕ
      pub best_items : BestItems ClapItem
      pub calls : List Progress

    unfoldable pub process_outcome : ℕ → Outcome (MatchedItem ClapItem) → Counted → Option Counted
    unfolding on_new_match
    process_outcome now panicked c = none
    process_outcome now no_match c = some (record c { processed_count = suc c.processed_count })
    process_outcome now (matched item) c = do
      (b, calls) ←
          on_new_match printer
            (record {
              item = item;
              total_matched = c.matched_count;
              total_processed = c.processed_count;
              now = now;
            })
            c.best_items
      some (record {
        matched_count = suc c.matched_count;
        processed_count = suc c.processed_count;
        best_items = b;
        calls = c.calls ++ calls;
      })

    unfoldable pub process_outcomes :
        List (ℕ × Outcome (MatchedItem ClapItem)) → Counted → Option Counted
    unfolding process_outcome
    process_outcomes [] c = some c
    process_outcomes ((now, o) ∷ os) c = process_outcome now o c >>= process_outcomes os

    -- The counters and the best items at the start.
    abbrev pub new_counted : ℕ → ℕ → ℕ → Counted
    new_counted now number interval = record {
      matched_count = 0;
      processed_count = 0;
      best_items = new_best_items now number interval;
      calls = [];
    }

    -- What is shown at the end.
    unfoldable pub finish_counted : Counted → Option Progress
    unfolding finish
    finish_counted c = finish printer c.matched_count c.processed_count c.best_items

    unfoldable pub par_dyn_run_inner :
        MatcherBuilder → Query → ℕ → ℕ → ℕ → ParSourceInner → Option (Counted × Progress)
    unfolding process_outcomes outcomes_of build finish_counted
    par_dyn_run_inner builder query now number interval source = do
      c ←
          process_outcomes (outcomes_of (build k builder query) source)
            (new_counted now number interval)
      shown ← finish_counted c
      some (c, shown)

    -- Each line with what the stop signal says when it is read; whether the work was stopped.
    unfoldable pub try_lines :
        Matcher Regex → List (Bool × ℕ × Text) → Counted → Option (Counted × Bool)
    unfolding process_outcome match_line
    try_lines m [] c = some (c, false)
    try_lines m ((stop, now, line) ∷ others) c =
        let rest = process_outcome now (match_line m line) c >>= try_lines m others in
        if stop then some (c, true) else rest

    -- Nothing is shown at the end of a run that was stopped.
    unfoldable pub par_dyn_run_inprocess :
        MatcherBuilder
        → Query
        → ℕ
        → ℕ
        → ℕ
        → List (Bool × ℕ × Text)
        → Option (Counted × Option Progress)
    unfolding try_lines build finish_counted
    par_dyn_run_inprocess builder query now number interval stream = do
      (c, stopped) ← try_lines (build k builder query) stream (new_counted now number interval)
      if stopped then some (c, none) else Option.map (λ shown. (c, some shown)) (finish_counted c)

-- ===== src/Filter/Items.antt =====
-- `par_filter`, `par_filter_items` of crates/filter/src/lib.rs and `filter_sequential` of
-- crates/filter/src/sequential_source.rs: all the matches, sorted. Among items of one rank an unstable sort
-- may choose; here they stay in the order of the source.
pub mod Agree
use mathlib.Core.Option
use vim_clap.Common.{Option, none, some, List, [], ◌∷◌, map}
use vim_clap.Common.Order.{sort}
use vim_clap.Text.{Text}
use vim_clap.Types.Item.{ClapItem, source_item_from, source_clap_item}
use vim_clap.Types.SourceItem.{MatchedItem, item_gt}
use vim_clap.Matcher.{Crates, Matcher, Outcome, no_match, matched, panicked, match_item}

module _ {A : Type 0} where
  abbrev pub push_match : Outcome A → Option (List A) → Option (List A)
  push_match no_match ms = ms
  push_match (matched a) ms = Option.map (λ ms. a ∷ ms) ms
  push_match panicked ms = none

  -- `filter_map`; `none` is the panic.
  unfoldable pub filter_map : {B : Type 0} → (B → Outcome A) → List B → Option (List A)
  filter_map f [] = some []
  filter_map f (x ∷ xs) = push_match (f x) (filter_map f xs)

-- The items, or the lines: of the standard input, of a file that may not open, of a command that may not run.
pub data SequentialSource : Type 0 where
  list : List ClapItem → SequentialSource
  stdin : List Text → SequentialSource
  file exec : Option (List Text) → SequentialSource

module _ {F Regex : Type 0} (k : Crates F Regex) where
  unfoldable pub par_filter : List ClapItem → Matcher Regex → Option (List (MatchedItem ClapItem))
  unfolding filter_map match_item sort
  par_filter source_items m = Option.map (sort item_gt) (filter_map (match_item k m) source_items)

  unfoldable pub line_items : List Text → List ClapItem
  unfolding source_item_from source_clap_item
  line_items = map (λ line. source_clap_item k.extractors (source_item_from line))

  -- `none` is the error of a source that does not open.
  unfoldable pub clap_item_stream : SequentialSource → Option (List ClapItem)
  unfolding line_items
  clap_item_stream (list xs) = some xs
  clap_item_stream (stdin ls) = some (line_items ls)
  clap_item_stream (file ls) = Option.map line_items ls
  clap_item_stream (exec ls) = Option.map line_items ls

  -- The outer `none` is the error, the inner one the panic.
  unfoldable pub filter_sequential :
      SequentialSource → Matcher Regex → Option (Option (List (MatchedItem ClapItem)))
  unfolding clap_item_stream par_filter
  filter_sequential source m = Option.map (λ items. par_filter items m) (clap_item_stream source)

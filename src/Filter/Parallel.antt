-- ===== src/Filter/Parallel.antt =====
-- crates/filter/src/parallel_worker.rs: the best items that the threads share, and what is shown of them.
-- `none` is a panic: that of the printer of crates/printer, or of the `expect` of the best items.
pub mod Best
pub mod Orders
pub mod Lines
use mathlib.Core.Option
use vim_clap.Common.{
  false, true, ℕ, ◌+◌, ◌%◌, ◌==◌, Bool, ◌&&◌, ◌||◌, not, Option, none, some, List, [], ◌∷◌, ◌++◌,
  if◌then◌else◌, length, last, filter, leb, ltb, map,
}
use vim_clap.Common.Options.{◌>>=◌}
use vim_clap.Common.Order.{sort}
use vim_clap.Common.Order.Last.{without_last}
use vim_clap.Printer.{DisplayLines, Icons, PrinterConfig, to_display_lines}
use vim_clap.Text.{Text, text_eq}
use vim_clap.Types.Rank.{rank_gt}
use vim_clap.Types.SourceItem.{MatchedItem, item_gt}

-- The `Printer` of crates/printer with what it calls of libraries and of the items.
pub record Printer (I : Type 0) : Type 0 where
  pub char_width : ℕ → Option ℕ
  pub icons : Icons I
  pub output_text : I → Text
  pub truncation_offset : I → Option ℕ
  pub config : PrinterConfig

-- `printer.to_display_lines(..)`
abbrev pub print : {I : Type 0} → Printer I → List (MatchedItem I) → Option DisplayLines
print p items =
    to_display_lines p.char_width p.icons p.output_text p.truncation_offset p.config items

-- The calls of `SearchProgressUpdate`, with the numbers of matched and processed items.
pub data Progress : Type 0 where
  quick_update : ℕ → ℕ → Progress
  update_all on_finished : DisplayLines → ℕ → ℕ → Progress

-- `past` and `update_interval` are in one unit of time.
pub record BestItems (I : Type 0) : Type 0 where
  pub past : ℕ
  pub items : List (MatchedItem I)
  pub last_lines : List Text
  pub last_visible_highlights : List (List ℕ)
  pub max_capacity : ℕ
  pub update_interval : ℕ

-- A call of `on_new_match`, and the time that the clock shows then.
pub record NewMatch (I : Type 0) : Type 0 where
  pub item : MatchedItem I
  pub total_matched : ℕ
  pub total_processed : ℕ
  pub now : ℕ

abbrev pub list_eq {ℓ} : {A : Type ℓ} → (A → A → Bool) → List A → List A → Bool
list_eq eq [] [] = true
list_eq eq [] (y ∷ ys) = false
list_eq eq (x ∷ xs) [] = false
list_eq eq (x ∷ xs) (y ∷ ys) = eq x y && list_eq eq xs ys

module _ {I : Type 0} where
  -- `BestItems::new`
  abbrev pub new_best_items : ℕ → ℕ → ℕ → BestItems I
  new_best_items now max_capacity update_interval = record {
    past = now;
    items = [];
    last_lines = [];
    last_visible_highlights = [];
    max_capacity = max_capacity;
    update_interval = update_interval;
  }

module _ {I : Type 0} (printer : Printer I) where
  abbrev pub is_due : NewMatch I → BestItems I → Bool
  is_due e b = ltb (b.past + b.update_interval) e.now

  abbrev pub told_while_filling :
      NewMatch I → BestItems I → DisplayLines → BestItems I × List Progress
  told_while_filling e b display_lines = (
    record b { last_lines = display_lines.lines; past = e.now },
    update_all display_lines e.total_matched e.total_processed ∷ [],
  )

  -- The notification while there is room.
  unfoldable pub notify_while_filling :
      NewMatch I → BestItems I → Option (BestItems I × List Progress)
  unfolding to_display_lines
  notify_while_filling e b =
      if is_due e b
      then Option.map (told_while_filling e b) (print printer b.items)
      else some (b, [])

  unfoldable pub visible_highlights_of : DisplayLines → List (List ℕ)
  visible_highlights_of d = map (filter (λ x. leb x printer.config.line_width)) d.indices

  abbrev pub is_changed : BestItems I → DisplayLines → Bool
  is_changed b display_lines =
      not (list_eq text_eq b.last_lines display_lines.lines)
      || not
          (list_eq (list_eq ◌==◌) b.last_visible_highlights (visible_highlights_of display_lines))

  -- The lines only where they look different.
  abbrev pub told_when_full : NewMatch I → BestItems I → DisplayLines → BestItems I × List Progress
  told_when_full e b display_lines =
      if is_changed b display_lines
      then (
        record b {
          last_lines = display_lines.lines;
          last_visible_highlights = visible_highlights_of display_lines;
          past = e.now;
        },
        update_all display_lines e.total_matched e.total_processed ∷ [],
      )
      else (record b { past = e.now }, quick_update e.total_matched e.total_processed ∷ [])

  -- The notification when the items are full.
  unfoldable pub notify_when_full : NewMatch I → BestItems I → Option (BestItems I × List Progress)
  unfolding visible_highlights_of to_display_lines
  notify_when_full e b =
      if (e.total_matched % 16 == 0 || e.total_processed % 16 == 0) && is_due e b
      then Option.map (told_when_full e b) (print printer b.items)
      else some (b, [])

  -- `on_new_match`; `none` is a panic of the printer, or of `expect("Max capacity is non-zero; qed")`.
  unfoldable pub on_new_match : NewMatch I → BestItems I → Option (BestItems I × List Progress)
  unfolding notify_while_filling notify_when_full sort
  on_new_match e b =
      let replaced : MatchedItem I → List (MatchedItem I) = λ l.
        if item_gt e.item l then sort item_gt (without_last b.items ++ e.item ∷ []) else b.items in
      let when_full : Option (BestItems I × List Progress) = elim (last b.items) [
        | none ↦ none
        | some l ↦ notify_when_full e (record b { items = replaced l })
      ] in
      if ltb (length b.items) b.max_capacity
      then notify_while_filling e (record b { items = sort item_gt (b.items ++ e.item ∷ []) })
      else when_full

  -- The calls, in the order in which the threads take the lock, and the calls of the progressor.
  unfoldable pub on_new_matches :
      List (NewMatch I) → BestItems I → Option (BestItems I × List Progress)
  unfolding on_new_match
  on_new_matches [] b = some (b, [])
  on_new_matches (e ∷ es) b = do
    (b', calls) ← on_new_match e b
    (b'', more) ← on_new_matches es b'
    some (b'', calls ++ more)

  -- `par_dyn_run_inner` from the matches on: the best items are shown at the end.
  unfoldable pub finish : ℕ → ℕ → BestItems I → Option Progress
  unfolding to_display_lines
  finish total_matched total_processed b =
      Option.map (λ d. on_finished d total_matched total_processed) (print printer b.items)

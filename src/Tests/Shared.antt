-- ===== src/Tests/Shared.antt =====
-- Two threads that find a match each: the best items have room for one.
use vim_clap.Common.{true, none, arith, ℕ, ◌≡◌, refl, some, [], ◌∷◌}
use vim_clap.Common.Int.{pos}
use vim_clap.Common.Order.{insert}
use vim_clap.Types.Rank.{rank_gt}
use vim_clap.Types.SourceItem.{new_item}
use vim_clap.Filter.Sequential.Start.{ranks}
use vim_clap.Printer.{no_icon}
use vim_clap.Filter.Parallel.{Printer, BestItems, NewMatch, new_best_items, on_new_matches}
use vim_clap.Filter.Parallel.Orders.{swapped, on_new_matches-Reordered}

abbrev plain : Printer ℕ
plain = record {
  char_width = λ c. some 1;
  icons = record { add_icon_to_text = λ t. t; icon = λ i. none };
  output_text = λ i. [];
  truncation_offset = λ i. none;
  config = record { line_width = 80; icon = no_icon; truncate_text = true };
}

abbrev found : ℕ → ℕ → NewMatch ℕ
found n s = record {
  item = new_item n (pos s ∷ []) [];
  total_matched = n;
  total_processed = n;
  now = n;
}

abbrev holding : ℕ → ℕ → BestItems ℕ
holding n s = record (new_best_items 0 1 100) { items = new_item n (pos s ∷ []) [] ∷ [] }

first_then_second :
    on_new_matches plain (found 1 5 ∷ found 2 7 ∷ []) (new_best_items 0 1 100)
    ≡ some (holding 2 7, [])
unfolding on_new_matches new_item insert rank_gt
first_then_second = refl

second_then_first :
    on_new_matches plain (found 2 7 ∷ found 1 5 ∷ []) (new_best_items 0 1 100)
    ≡ some (holding 2 7, [])
unfolding on_new_matches new_item insert rank_gt
second_then_first = refl

on_new_matches-Reordered_example : ranks (holding 2 7).items ≡ ranks (holding 2 7).items
on_new_matches-Reordered_example =
    on_new_matches-Reordered plain (found 1 5 ∷ found 2 7 ∷ []) (found 2 7 ∷ found 1 5 ∷ []) 0 0 1
      100 100 (λ h. ground arith) swapped first_then_second second_then_first

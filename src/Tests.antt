-- ===== src/Tests.antt =====
-- Runs of the model on concrete inputs, after the tests of the repository where it has them.
mod Runs
mod Documents
mod Sessions
mod Tracking
mod Symbols
mod Highlights
mod Tables
mod Cached
mod Worker
mod Terms
mod Files
mod Matching
mod Shared
mod Lines
mod Patches
mod Cuts
mod Languages
use vim_clap.Common.{
  ◌+◌, ℕ, zero, suc, ◌%◌, ◌≡◌, ◌<◌, refl, true, false, none, some, List, [], ◌∷◌, ◌++◌, length,
  take, get_elem?, All, replicate, if◌then◌else◌, ◌==◌, count, arith,
}
use vim_clap.Common.Int.{pos, negsuc}
use vim_clap.Common.Order.{sort, insert}
use vim_clap.Text.{Text, codes}
use vim_clap.Types.Rank.{
  negative_begin, end, begin, Rank, Rank_default, rank_gt, RankCriterion, RankCalculator_default,
  new_calculator, calculate_rank,
}
use vim_clap.Types.Rank.Laws.{calculate_rank-new_calculator, calculate_rank-default, is_better}
use vim_clap.Types.SourceItem.{MatchedItem, new_item}
use vim_clap.Filter.Sequential.{
  items_to_show, run_all, dyn_collect_all, dyn_collect_number, best_of_number,
}
use vim_clap.Filter.Sequential.Start.{IsRanked, ranks, run_all-best}
use vim_clap.Filter.Sequential.Indices.{IsIndexed, run_all-IsIndexed}
use vim_clap.Filter.Sequential.Collect.{best_of_number-best}
use vim_clap.Diagnostics.{
  Diagnostic, Severity, Stats_default, BufferDiagnostics, append, sort_by_line, diagnostic_eq,
  count_stats, is_error, is_warn, is_hint, new_buffer,
}
use vim_clap.Diagnostics.Sorted.{IsByLine, append-IsByLine}
use vim_clap.Diagnostics.Worker.{Vim, set_stats, tried, first_report, update_buffer_diagnostics}
use vim_clap.Diagnostics.Repeat.{update_buffer_diagnostics-repeat}
use vim_clap.Input.Recorder.{
  InputRecorder, try_record, move_to_next, move_to_prev, here, then_step, recorded, moved_next,
}
use vim_clap.Input.Recorder.Laws.{
  IsBounded, Reach-IsBounded, move_to_prev-next, move_to_prev-none, walk,
}
use vim_clap.Input.History.{InputHistory, inputs, update_inputs}

abbrev item_of : ℕ → ℕ → MatchedItem ℕ
item_of i score = new_item i (pos score ∷ pos 0 ∷ pos 0 ∷ pos 0 ∷ []) []

-- A stream of items whose scores go up and down.
abbrev stream : ℕ → List (MatchedItem ℕ)
stream zero = []
stream (suc n) = item_of n (n % 7) ∷ stream n

stream-IsRanked : (n : ℕ) → All (λ m. IsRanked m.rank) (stream n)
unfolding rank_gt new_item
stream-IsRanked zero = tt
stream-IsRanked (suc n) = (ground arith, stream-IsRanked n)

best_of_number-best_example :
    (ranks (best_of_number 80 3 (stream 90)).1 ≡ take 3 (sort rank_gt (ranks (stream 90))))
    × ((best_of_number 80 3 (stream 90)).0 ≡ length (stream 90))
    × (length (dyn_collect_number 80 (stream 90)).1 < 80)
best_of_number-best_example = best_of_number-best 80 3 (stream 90) (omega arith)

run_all-best_example :
    (run_all (stream 45)).top_ranks
    ≡ take items_to_show (sort rank_gt (ranks (stream 45)) ++ replicate items_to_show Rank_default)
run_all-best_example = run_all-best (stream 45) (stream-IsRanked 45)

abbrev diagnostic_at : ℕ → Text → Severity → Diagnostic
diagnostic_at line message severity = record {
  message = message;
  spans = record { line_start = line; line_end = line; column_start = 1; column_end = 4 } ∷ [];
  code = codes "E0412";
  severity = severity;
}

abbrev report : List Diagnostic
report =
    diagnostic_at 7 (codes "unused") Severity.warning
    ∷ diagnostic_at 3 (codes "no type") Severity.error
    ∷ diagnostic_at 7 (codes "unused") Severity.warning
    ∷ []

abbrev sorted_report : List Diagnostic
sorted_report =
    diagnostic_at 3 (codes "no type") Severity.error
    ∷ diagnostic_at 7 (codes "unused") Severity.warning
    ∷ []

abbrev vim : Vim
vim = record { line = some 3; col = some 1; bufnr = λ path. some 1; sends = true }

abbrev reported : BufferDiagnostics
reported = record { first_result_arrived = true; inner = sorted_report }

update_buffer_diagnostics-repeat_example :
    update_buffer_diagnostics 1 vim reported report
    ≡ some (reported, tried vim (set_stats 1 (count_stats sorted_report Stats_default) ∷ []))
unfolding update_buffer_diagnostics new_buffer sort_by_line first_report append insert diagnostic_eq
update_buffer_diagnostics-repeat_example =
    update_buffer_diagnostics-repeat 1 vim vim new_buffer report refl

abbrev recorder : InputRecorder
recorder = record {
  inputs = codes "foo" ∷ codes "bar" ∷ codes "baz" ∷ [];
  last_input = codes "baz";
  current_index = 2;
}

abbrev overrun : InputRecorder
overrun = record recorder { current_index = 4 }

Reach-IsBounded_example : IsBounded (move_to_next (try_record (codes "quux") recorder)).0
Reach-IsBounded_example = Reach-IsBounded {r = recorder} (omega arith) (
    then_step (then_step here (recorded recorder (codes "quux")))
      (moved_next (try_record (codes "quux") recorder)))

move_to_prev-next_example :
    ((move_to_prev (move_to_next recorder).0).0 ≡ recorder)
    × ((move_to_prev (move_to_next recorder).0).1
        ≡ get_elem? recorder.inputs recorder.current_index)
    × ((move_to_next (move_to_prev recorder).0).0 ≡ recorder)
    × ((k : ℕ)
        → ((move_to_next (walk k recorder)).1
            ≡ get_elem? recorder.inputs ((recorder.current_index + suc k) % length recorder.inputs))
          × ((walk k recorder).current_index
              ≡ (recorder.current_index + k) % length recorder.inputs))
move_to_prev-next_example = move_to_prev-next recorder (omega arith)

abbrev history : InputHistory
history = (1, codes "foo" ∷ []) ∷ (2, codes "bar" ∷ []) ∷ []

other_inputs_kept : inputs 1 (update_inputs 2 [] history) ≡ codes "foo" ∷ []
unfolding inputs update_inputs
other_inputs_kept = refl

-- ===== src/Tests/Worker.antt =====
-- A run of the diagnostics worker: the buffer is reset, then a linter reports.
use vim_clap.Common.{ℕ, refl, some, true, [], ◌∷◌}
use vim_clap.Text.{codes}
use vim_clap.Common.Order.{insert}
use vim_clap.Diagnostics.{
  Diagnostic, Severity, BufferDiagnostics, new_buffer, append, sort_by_line, diagnostic_eq, reset,
}
use vim_clap.Diagnostics.Sorted.{IsByLine}
use vim_clap.Diagnostics.Worker.{
  Vim, Buffers, Run, started, handled, handle, get, updated, update_buffer_diagnostics,
  first_report, reset_buffer_diagnostics, linter_diagnostics,
}
use vim_clap.Diagnostics.Worker as worker
use vim_clap.Diagnostics.Run.{Run-IsByLine}

abbrev vim : Vim
vim = record { line = some 3; col = some 1; bufnr = λ path. some 1; sends = true }

abbrev at : ℕ → Diagnostic
at line = record {
  message = codes "unused";
  spans = record { line_start = line; line_end = line; column_start = 1; column_end = 4 } ∷ [];
  code = [];
  severity = Severity.warning;
}

abbrev filled : BufferDiagnostics
filled = record { first_result_arrived = true; inner = at 3 ∷ at 7 ∷ [] }

was_reset : Run ((1, new_buffer) ∷ [])
unfolding handle get worker.insert reset new_buffer
was_reset = handled vim (reset_buffer_diagnostics 1) started refl

was_reported : Run ((1, filled) ∷ [])
unfolding handle get updated update_buffer_diagnostics first_report append sort_by_line insert
    diagnostic_eq worker.insert new_buffer
was_reported = handled vim (linter_diagnostics 1 (at 7 ∷ at 3 ∷ at 7 ∷ [])) was_reset refl

Run-IsByLine_example : IsByLine filled.inner
unfolding get
Run-IsByLine_example = Run-IsByLine 1 filled was_reported refl

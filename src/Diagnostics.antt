-- ===== src/Diagnostics.antt =====
-- crates/code_tools/src/linting/mod.rs (the diagnostics) and
-- crates/maple_core/src/stdio_server/diagnostics_worker.rs (the diagnostics of a buffer).
-- `none` is the panic of `spans[0]` on a diagnostic with no span.
pub mod Worker
pub mod Sorted
pub mod Included
pub mod Repeat
pub mod Run
use mathlib.Core.List.{reverse}
use mathlib.Core.Option
use vim_clap.Common.{
  ℕ, zero, suc, ◌+◌, ◌≤◌, Bool, true, false, not, ◌&&◌, ◌||◌, Option, none, some, List, [], ◌∷◌,
  ◌++◌, ltb, leb, ◌==◌, if◌then◌else◌, length, is_empty, first, last, any, all, filter, dedup, find,
}
use vim_clap.Common.Order.{sort}
use vim_clap.Text.{Text, text_eq, codes}

pub data Severity : Type 0 where
  error warning info hint note help style unknown : Severity

pub record DiagnosticSpan : Type 0 where
  pub line_start : ℕ
  pub line_end : ℕ
  pub column_start : ℕ
  pub column_end : ℕ

pub record Diagnostic : Type 0 where
  pub message : Text
  pub spans : List DiagnosticSpan
  pub code : Text
  pub severity : Severity

unfoldable pub start_pos : DiagnosticSpan → ℕ × ℕ
start_pos s = (s.line_start, s.column_start)

-- The derived `==` of the spans.
abbrev pub span_eq : DiagnosticSpan → DiagnosticSpan → Bool
span_eq a b =
    a.line_start == b.line_start
    && a.line_end == b.line_end
    && a.column_start == b.column_start
    && a.column_end == b.column_end

abbrev pub spans_eq : List DiagnosticSpan → List DiagnosticSpan → Bool
spans_eq [] [] = true
spans_eq [] (b ∷ bs) = false
spans_eq (a ∷ as') [] = false
spans_eq (a ∷ as') (b ∷ bs) = span_eq a b && spans_eq as' bs

-- `spans.iter().zip(other.spans.iter()).all(…)`: each pair of spans is one and the same line.
unfoldable pub same_lines : List DiagnosticSpan → List DiagnosticSpan → Bool
same_lines (a ∷ as') (b ∷ bs) =
    a.line_start == a.line_end
    && a.line_start == b.line_start
    && b.line_start == b.line_end
    && same_lines as' bs
same_lines [] bs = true
same_lines (a ∷ as') [] = true

unfoldable pub is_same_code : Diagnostic → Diagnostic → Bool
is_same_code a b = not (is_empty a.code) && text_eq a.code b.code

-- `PartialEq for Diagnostic`
unfoldable pub diagnostic_eq : Diagnostic → Diagnostic → Bool
unfolding same_lines is_same_code
diagnostic_eq a b =
    if same_lines a.spans b.spans && is_same_code a b && text_eq a.message b.message
    then true
    else spans_eq a.spans b.spans && (is_same_code a b || text_eq a.message b.message)

unfoldable pub human_message : Diagnostic → Text
human_message d = codes "[" ++ (d.code ++ (codes "] " ++ d.message))

abbrev pub is_error : Diagnostic → Bool
is_error d = elim (d.severity) [ error ↦ true | _ ↦ false ]

abbrev pub is_warn : Diagnostic → Bool
is_warn d = elim (d.severity) [ warning ↦ true | _ ↦ false ]

abbrev pub is_hint : Diagnostic → Bool
is_hint d = elim (d.severity) [ hint ↦ true | _ ↦ false ]

pub record Stats : Type 0 where
  pub error : ℕ
  pub warn : ℕ
  pub hint : ℕ

abbrev pub Stats_default : Stats
Stats_default = record { error = 0; warn = 0; hint = 0 }

pub record BufferDiagnostics : Type 0 where
  pub first_result_arrived : Bool
  pub inner : List Diagnostic

unfoldable pub new_buffer : BufferDiagnostics
new_buffer = record { first_result_arrived = false; inner = [] }

-- The line that diagnostics are sorted by, 0 where there is no span.
abbrev pub first_line : Diagnostic → ℕ
first_line d = elim (d.spans) [ [] ↦ 0 | s ∷ _ ↦ s.line_start ]

abbrev pub has_span : Diagnostic → Bool
has_span d = not (is_empty d.spans)

abbrev pub line_before : Diagnostic → Diagnostic → Bool
line_before a b = ltb (first_line a) (first_line b)

-- `sort_by` on `spans[0].line_start`, which is read of every diagnostic if there are two or more.
unfoldable pub sort_by_line : List Diagnostic → Option (List Diagnostic)
unfolding sort
sort_by_line ds = if leb (length ds) 1 || all has_span ds then some (sort line_before ds) else none

-- The loop that counts, and its body.
unfoldable pub tally : Diagnostic → Stats → Stats
tally d s =
    if is_error d
    then record s { error = s.error + 1 }
    else if is_warn d
    then record s { warn = s.warn + 1 }
    else if is_hint d
    then record s { hint = s.hint + 1 }
    else s

unfoldable pub count_stats : List Diagnostic → Stats → Stats
unfolding tally
count_stats [] s = s
count_stats (d ∷ ds) s = count_stats ds (tally d s)

unfoldable pub append : BufferDiagnostics → List Diagnostic → Option (BufferDiagnostics × Stats)
unfolding sort_by_line count_stats
append b new_diagnostics =
    Option.map (λ ds. (record b { inner = ds }, count_stats ds Stats_default))
      (sort_by_line (b.inner ++ new_diagnostics))

unfoldable pub reset : BufferDiagnostics → BufferDiagnostics
reset b = record { first_result_arrived = false; inner = [] }

pub data DiagnosticKind : Type 0 where
  all_kinds error_kind warn_kind hint_kind : DiagnosticKind

pub data Direction : Type 0 where
  first_one last_one next prev : Direction

-- The first spans of the diagnostics of a kind: `spans`, `errors`, `warnings` and `hints`.
abbrev pub is_kind : DiagnosticKind → Diagnostic → Bool
is_kind all_kinds d = true
is_kind error_kind d = is_error d
is_kind warn_kind d = is_warn d
is_kind hint_kind d = is_hint d

unfoldable pub spans_of : DiagnosticKind → List Diagnostic → List DiagnosticSpan
spans_of kind [] = []
spans_of kind (d ∷ ds) =
    let rest = spans_of kind ds in
    if is_kind kind d then (elim (d.spans) [ [] ↦ rest | s ∷ _ ↦ s ∷ rest ]) else rest

unfoldable pub find_sibling_position :
    BufferDiagnostics → ℕ → DiagnosticKind → Direction → Option (ℕ × ℕ)
unfolding spans_of start_pos
find_sibling_position b line kind first_one = Option.map start_pos (first (spans_of kind b.inner))
find_sibling_position b line kind last_one = Option.map start_pos (last (spans_of kind b.inner))
find_sibling_position b line kind next =
    Option.map start_pos (find (λ s. ltb line s.line_start) (spans_of kind b.inner))
find_sibling_position b line kind prev =
    Option.map start_pos (find (λ s. ltb s.line_start line) (reverse (spans_of kind b.inner)))

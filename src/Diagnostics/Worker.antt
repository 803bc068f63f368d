-- ===== src/Diagnostics/Worker.antt =====
-- crates/maple_core/src/stdio_server/diagnostics_worker.rs: the worker that receives diagnostics and
-- the messages of the plugins. The editor's answers are an argument, the calls that the worker makes
-- of the editor are returned.
use mathlib.Core.Option
use vim_clap.Common.{
  ◌≡◌, ℕ, zero, suc, ◌+◌, Bool, true, not, ◌&&◌, Option, none, some, List, [], ◌∷◌, ◌++◌, map, ltb,
  leb, ◌==◌, if◌then◌else◌, length, drop, is_empty, any, filter, dedup,
}
use vim_clap.Text.{Text, starts_with}
use vim_clap.Diagnostics.{
  Diagnostic, Severity, Stats, Stats_default, BufferDiagnostics, DiagnosticKind, Direction,
  new_buffer, diagnostic_eq, human_message, sort_by_line, append, reset, find_sibling_position,
}

pub data VimCall : Type 0 where
  refresh_highlights add_highlights : ℕ → List Diagnostic → VimCall
  set_stats : ℕ → Stats → VimCall
  toggle_off : ℕ → VimCall
  close_top_right : VimCall
  display_at_top_right echo_diagnostics : List Diagnostic → VimCall
  echo_not_found : ℕ → VimCall
  echo_info : Text → VimCall
  cursor : ℕ → ℕ → VimCall
  center : VimCall

-- What the editor answers while one message is handled; `none` is an error. `sends` is whether a
-- notification can be sent.
pub record Vim : Type 0 where
  pub line : Option ℕ
  pub col : Option ℕ
  pub bufnr : Text → Option ℕ
  pub sends : Bool

-- A step goes on, ends the worker with an error, or panics.
pub data Outcome {ℓ} (A : Type ℓ) : Type ℓ where
  done : A → Outcome A
  exited : Outcome A
  panicked : Outcome A

infixl 5 ◌>>=◌
abbrev pub ◌>>=◌ {ℓ κ} : {A : Type ℓ} {B : Type κ} → Outcome A → (A → Outcome B) → Outcome B
done a >>= f = f a
exited >>= f = exited
panicked >>= f = panicked

-- `value?`, and a value whose absence is a panic.
abbrev pub ask {ℓ} : {A : Type ℓ} → Option A → Outcome A
ask none = exited
ask (some a) = done a

abbrev pub expect {ℓ} : {A : Type ℓ} → Option A → Outcome A
expect none = panicked
expect (some a) = done a

-- `vim.exec(…)?`
abbrev pub sent : Vim → List VimCall → Outcome (List VimCall)
sent vim calls = if vim.sends then done calls else exited

-- `let _ = vim.exec(…)`
abbrev pub tried : Vim → List VimCall → List VimCall
tried vim calls = if vim.sends then calls else []

abbrev pub on_line : ℕ → Diagnostic → Bool
on_line lnum d = any (λ s. s.line_start == lnum) d.spans

abbrev pub at_column : ℕ → Diagnostic → Bool
at_column col d = any (λ s. leb s.column_start col && ltb col s.column_end) d.spans

unfoldable pub display_diagnostics_under_cursor : Vim → BufferDiagnostics → Outcome (List VimCall)
display_diagnostics_under_cursor vim b = do
  lnum ← ask vim.line
  col ← ask vim.col
  let current = filter (on_line lnum) b.inner
  let at_cursor = filter (at_column col) current
  sent vim (
      (if is_empty current
        then close_top_right
        else if is_empty at_cursor
        then display_at_top_right current
        else display_at_top_right at_cursor)
      ∷ [])

-- The diagnostics of `new_diagnostics` that are not there yet.
unfoldable pub followups : List Diagnostic → List Diagnostic → List Diagnostic
followups existing new_diagnostics =
    dedup (λ previous d. diagnostic_eq d previous)
      (filter (λ d. not (any (λ e. diagnostic_eq e d) existing)) new_diagnostics)

-- The first report of a buffer, and a later one.
unfoldable pub first_report :
    ℕ → Vim → BufferDiagnostics → List Diagnostic → Option (BufferDiagnostics × List VimCall)
first_report bufnr vim b new_diagnostics =
    Option.map
      (λ r. (r.0, tried vim (refresh_highlights bufnr new_diagnostics ∷ set_stats bufnr r.1 ∷ [])))
      (append (record b { first_result_arrived = true }) new_diagnostics)

unfoldable pub later_report :
    ℕ → Vim → BufferDiagnostics → List Diagnostic → Option (BufferDiagnostics × List VimCall)
later_report bufnr vim b new_diagnostics =
    let more = followups b.inner new_diagnostics in
    let shown = if is_empty more then [] else tried vim (add_highlights bufnr more ∷ []) in
    Option.map (λ r. (r.0, shown ++ tried vim (set_stats bufnr r.1 ∷ []))) (append b more)

-- `update_buffer_diagnostics`. The task that it spawns to display the diagnostics under the cursor runs
-- later and changes no state.
unfoldable pub update_buffer_diagnostics :
    ℕ → Vim → BufferDiagnostics → List Diagnostic → Option (BufferDiagnostics × List VimCall)
update_buffer_diagnostics bufnr vim b unsorted = elim (sort_by_line unsorted) [
  | none ↦ none
  | some sorted ↦
      let new_diagnostics = dedup (λ previous d. diagnostic_eq d previous) sorted in
      if b.first_result_arrived
      then later_report bufnr vim b new_diagnostics
      else first_report bufnr vim b new_diagnostics
]

-- `HashMap<usize, BufferDiagnostics>`
abbrev pub Buffers : Type 0
Buffers = List (ℕ × BufferDiagnostics)

unfoldable pub get : ℕ → Buffers → Option BufferDiagnostics
get k [] = none
get k ((j, b) ∷ m) = if j == k then some b else get k m

unfoldable pub insert : ℕ → BufferDiagnostics → Buffers → Buffers
insert k b [] = (k, b) ∷ []
insert k b ((j, c) ∷ m) = if j == k then (k, b) ∷ m else (j, c) ∷ insert k b m

-- The fields of an LSP diagnostic that are read. The severity is a number, the code a text or a number,
-- which stands here by its decimal digits.
pub data NumberOrString : Type 0 where
  number : Text → NumberOrString
  string : Text → NumberOrString

pub record LspDiagnostic : Type 0 where
  pub severity : Option ℕ
  pub code : Option NumberOrString
  pub message : Text
  pub start_line : ℕ
  pub start_character : ℕ
  pub end_line : ℕ
  pub end_character : ℕ

-- `text.replace(pat, " ")` for a pattern that is not empty, on fuel: each round drops a char.
unfoldable pub replace_by_space : ℕ → Text → Text → Text
unfolding starts_with
replace_by_space zero pat t = t
replace_by_space (suc fuel) pat [] = []
replace_by_space (suc fuel) pat (c ∷ cs) =
    let replaced = 0x20 ∷ replace_by_space fuel pat (drop (length pat) (c ∷ cs)) in
    let kept = c ∷ replace_by_space fuel pat cs in
    if starts_with (c ∷ cs) pat then replaced else kept

abbrev pub replace_all : Text → Text → Text
replace_all pat t = replace_by_space (length t) pat t

unfoldable pub convert_severity : Option ℕ → Severity
convert_severity none = Severity.unknown
convert_severity (some s) =
    if s == 1
    then Severity.error
    else if s == 2
    then Severity.warning
    else if s == 3
    then Severity.info
    else if s == 4
    then Severity.hint
    else Severity.unknown

unfoldable pub convert_code : Option NumberOrString → Text
convert_code none = []
convert_code (some (number n)) = n
convert_code (some (string s)) = s

unfoldable pub convert_lsp_diagnostic : LspDiagnostic → Diagnostic
unfolding convert_severity convert_code replace_by_space
convert_lsp_diagnostic l = record {
  message =
      replace_all (0xa ∷ []) (replace_all (0xd ∷ []) (replace_all (0xd ∷ 0xa ∷ []) l.message));
  spans =
      record {
        line_start = l.start_line + 1;
        line_end = l.end_line + 1;
        column_start = l.start_character + 1;
        column_end = l.end_character + 1;
      }
      ∷ [];
  code = convert_code l.code;
  severity = convert_severity l.severity;
}

pub data WorkerMessage : Type 0 where
  show_diagnostics show_diagnostics_under_cursor : ℕ → WorkerMessage
  show_diagnostics_under_cursor_in_float_win reset_buffer_diagnostics : ℕ → WorkerMessage
  navigate_diagnostics : ℕ → DiagnosticKind → Direction → WorkerMessage
  linter_diagnostics : ℕ → List Diagnostic → WorkerMessage
  lsp_diagnostics : Text → List LspDiagnostic → WorkerMessage

-- The entry of a buffer, a new one where there is none.
abbrev pub entry : ℕ → Buffers → BufferDiagnostics
entry k m = elim (get k m) [ none ↦ new_buffer | some b ↦ b ]

unfoldable pub navigate :
    Vim → BufferDiagnostics → DiagnosticKind → Direction → Outcome (List VimCall)
unfolding find_sibling_position
navigate vim b kind direction = do
  lnum ← ask vim.line
  elim (find_sibling_position b lnum kind direction) [
    | none ↦ done []
    | some (l, c) ↦ sent vim (cursor l c ∷ center ∷ [])
  ]

unfoldable pub updated :
    ℕ → Vim → Buffers → BufferDiagnostics → List Diagnostic → Outcome (Buffers × List VimCall)
unfolding update_buffer_diagnostics insert
updated bufnr vim m b ds = do
  (b', calls) ← expect (update_buffer_diagnostics bufnr vim b ds)
  done (insert bufnr b' m, calls)

-- One round of `run`: the arms of the `match` on the message.
unfoldable pub handle : Vim → WorkerMessage → Buffers → Outcome (Buffers × List VimCall)
unfolding get updated navigate display_diagnostics_under_cursor convert_lsp_diagnostic human_message
    reset
handle vim (show_diagnostics bufnr) m = elim (get bufnr m) [
  | some b ↦ sent vim (echo_diagnostics b.inner ∷ []) >>= λ calls. done (m, calls)
  | none ↦ sent vim (echo_not_found bufnr ∷ []) >>= λ calls. done (m, calls)
]
handle vim (show_diagnostics_under_cursor bufnr) m = elim (get bufnr m) [
  | none ↦ done (m, [])
  | some b ↦ elim (vim.line) [
    | none ↦ done (m, [])
    | some lnum ↦
        let current = filter (on_line lnum) b.inner in
        if is_empty current
        then done (m, [])
        else (sent vim (map (λ d. echo_info (human_message d)) current) >>= λ calls.
            done (m, calls))
  ]
]
handle vim (navigate_diagnostics bufnr kind direction) m = elim (get bufnr m) [
  | none ↦ done (m, [])
  | some b ↦ navigate vim b kind direction >>= λ calls. done (m, calls)
]
handle vim (show_diagnostics_under_cursor_in_float_win bufnr) m = elim (get bufnr m) [
  | none ↦ done (m, [])
  | some b ↦ display_diagnostics_under_cursor vim b >>= λ calls. done (m, calls)
]
handle vim (reset_buffer_diagnostics bufnr) m =
    let m' = insert bufnr (reset (entry bufnr m)) m in
    sent vim (set_stats bufnr Stats_default ∷ toggle_off bufnr ∷ []) >>= λ calls. done (m', calls)
handle vim (linter_diagnostics bufnr ds) m = elim (get bufnr m) [
  | none ↦ done (m, [])
  | some b ↦ updated bufnr vim m b ds
]
handle vim (lsp_diagnostics path ds) m = elim (vim.bufnr path) [
  | none ↦ done (m, [])
  | some bufnr ↦ updated bufnr vim m (entry bufnr m) (map convert_lsp_diagnostic ds)
]

-- The state of the worker after a sequence of messages that it handled.
pub data Run : Buffers → Type 0 where
  started : Run []
  handled :
      {m m' : Buffers} {calls : List VimCall} (vim : Vim) (message : WorkerMessage)
      → Run m
      → handle vim message m ≡ done (m', calls)
      → Run m'

-- ===== src/Diagnostics/Run.antt =====
-- The state of the worker along its messages: every buffer is sorted by line.
use mathlib.Core.Path.{subst}
use vim_clap.Common.{
  map, ℕ, ◌≡◌, some, List, [], ◌∷◌, ◌==◌, if◌then◌else◌, arith, Option-cases, Bool-cases, inl, inr,
}
use vim_clap.Diagnostics.{Text, Direction, DiagnosticKind, Diagnostic, BufferDiagnostics, reset}
use vim_clap.Diagnostics.Sorted.{IsByLine, sort_by_line-IsByLine}
use vim_clap.Diagnostics.Worker.{
  convert_lsp_diagnostic, LspDiagnostic, Run, Vim, VimCall, done, Buffers, get, insert, entry,
  updated, WorkerMessage, handle, update_buffer_diagnostics,
}
use vim_clap.Diagnostics.Repeat.{update-IsUpdated}

abbrev IsSortedBuffers : Buffers → Type 0
IsSortedBuffers m = (k : ℕ) (b : BufferDiagnostics) → get k m ≡ some b → IsByLine b.inner

get-insert :
    (k j : ℕ) (b : BufferDiagnostics) (m : Buffers)
    → get k (insert j b m) ≡ (if j == k then some b else get k m)
unfolding get insert
get-insert k j b [] = ground arith
get-insert k j b ((i, c) ∷ m) = ground (arith, get-insert k j b m)

insert-IsSortedBuffers :
    (j : ℕ) (b : BufferDiagnostics) (m : Buffers)
    → IsByLine b.inner
    → IsSortedBuffers m
    → IsSortedBuffers (insert j b m)
insert-IsSortedBuffers j b m p h k c e = elim (Bool-cases (j == k)) [
  | inl q ↦
      let same : b ≡ c = ground (arith, get-insert k j b m) in subst (λ x. IsByLine x.inner) same p
  | inr q ↦ h k c (ground (arith, get-insert k j b m))
]

updated-IsSortedBuffers :
    (n : ℕ) (vim : Vim) (m : Buffers) (b : BufferDiagnostics) (ds : List Diagnostic) {m' : Buffers}
    {calls : List VimCall}
    → IsSortedBuffers m
    → updated n vim m b ds ≡ done (m', calls)
    → IsSortedBuffers m'
unfolding updated
updated-IsSortedBuffers n vim m b ds {m'} {calls} h e =
    elim (Option-cases (update_buffer_diagnostics n vim b ds)) [
      | inl f ↦ absurd (ground arith)
      | inr ((b', shown), f) ↦
          let (sorted, s, u) = update-IsUpdated n vim b ds f in
          let same : insert n b' m ≡ m' = ground arith in
          subst IsSortedBuffers same
            (insert-IsSortedBuffers n b' m (sort_by_line-IsByLine b'.inner u.sorted) h)
    ]

-- A handled message that changes no buffer.
abbrev IsKept : WorkerMessage → Type 0
IsKept message =
    (vim : Vim) (m m' : Buffers) (calls : List VimCall)
    → handle vim message m ≡ done (m', calls)
    → m ≡ m'

show_diagnostics-IsKept : (n : ℕ) → IsKept (WorkerMessage.show_diagnostics n)
unfolding handle
show_diagnostics-IsKept n vim m m' calls e = ground arith

show_diagnostics_under_cursor-IsKept :
    (n : ℕ) → IsKept (WorkerMessage.show_diagnostics_under_cursor n)
unfolding handle
show_diagnostics_under_cursor-IsKept n vim m m' calls e = ground arith

navigate_diagnostics-IsKept :
    (n : ℕ) (kind : DiagnosticKind) (direction : Direction)
    → IsKept (WorkerMessage.navigate_diagnostics n kind direction)
unfolding handle
navigate_diagnostics-IsKept n kind direction vim m m' calls e = ground arith

float_win-IsKept : (n : ℕ) → IsKept (WorkerMessage.show_diagnostics_under_cursor_in_float_win n)
unfolding handle
float_win-IsKept n vim m m' calls e = ground arith

reset-inserts :
    (n : ℕ) (vim : Vim) (m m' : Buffers) (calls : List VimCall)
    → handle vim (WorkerMessage.reset_buffer_diagnostics n) m ≡ done (m', calls)
    → insert n (reset (entry n m)) m ≡ m'
unfolding handle
reset-inserts n vim m m' calls e = ground arith

linter-IsSortedBuffers :
    (n : ℕ) (ds : List Diagnostic) (vim : Vim) (m m' : Buffers) (calls : List VimCall)
    → IsSortedBuffers m
    → handle vim (WorkerMessage.linter_diagnostics n ds) m ≡ done (m', calls)
    → IsSortedBuffers m'
unfolding handle
linter-IsSortedBuffers n ds vim m m' calls h e = elim (Option-cases (get n m)) [
  | inl f ↦ subst IsSortedBuffers (ground (arith, f)) h
  | inr (b, f) ↦
      let step : updated n vim m b ds ≡ done (m', calls) = ground (arith, f) in
      updated-IsSortedBuffers n vim m b ds h step
]

lsp-IsSortedBuffers :
    (path : Text) (ds : List LspDiagnostic) (vim : Vim) (m m' : Buffers) (calls : List VimCall)
    → IsSortedBuffers m
    → handle vim (WorkerMessage.lsp_diagnostics path ds) m ≡ done (m', calls)
    → IsSortedBuffers m'
unfolding handle
lsp-IsSortedBuffers path ds vim m m' calls h e = elim (Option-cases (vim.bufnr path)) [
  | inl f ↦ subst IsSortedBuffers (ground (arith, f)) h
  | inr (n, f) ↦
      let step : updated n vim m (entry n m) (map convert_lsp_diagnostic ds) ≡ done (m', calls) =
        ground (arith, f) in
      updated-IsSortedBuffers n vim m (entry n m) (map convert_lsp_diagnostic ds) h step
]

reset-IsByLine : (b : BufferDiagnostics) → IsByLine (reset b).inner
unfolding reset
reset-IsByLine b = tt

handle-IsSortedBuffers :
    (message : WorkerMessage) (vim : Vim) (m m' : Buffers) (calls : List VimCall)
    → IsSortedBuffers m
    → handle vim message m ≡ done (m', calls)
    → IsSortedBuffers m'
handle-IsSortedBuffers (WorkerMessage.show_diagnostics n) vim m m' calls h e =
    subst IsSortedBuffers (show_diagnostics-IsKept n vim m m' calls e) h
handle-IsSortedBuffers (WorkerMessage.show_diagnostics_under_cursor n) vim m m' calls h e =
    subst IsSortedBuffers (show_diagnostics_under_cursor-IsKept n vim m m' calls e) h
handle-IsSortedBuffers (WorkerMessage.show_diagnostics_under_cursor_in_float_win n) vim m m' calls h
      e =
    subst IsSortedBuffers (float_win-IsKept n vim m m' calls e) h
handle-IsSortedBuffers (WorkerMessage.reset_buffer_diagnostics n) vim m m' calls h e =
    subst IsSortedBuffers (reset-inserts n vim m m' calls e)
      (insert-IsSortedBuffers n (reset (entry n m)) m (reset-IsByLine (entry n m)) h)
handle-IsSortedBuffers (WorkerMessage.navigate_diagnostics n kind direction) vim m m' calls h e =
    subst IsSortedBuffers (navigate_diagnostics-IsKept n kind direction vim m m' calls e) h
handle-IsSortedBuffers (WorkerMessage.linter_diagnostics n ds) vim m m' calls h e =
    linter-IsSortedBuffers n ds vim m m' calls h e
handle-IsSortedBuffers (WorkerMessage.lsp_diagnostics path ds) vim m m' calls h e =
    lsp-IsSortedBuffers path ds vim m m' calls h e

Run-all : {m : Buffers} → Run m → IsSortedBuffers m
unfolding get
Run-all Run.started = λ k b e. absurd (ground arith)
Run-all (Run.handled {m} {m'} {calls} vim message r e) =
    handle-IsSortedBuffers message vim m m' calls (Run-all r) e

-- Whatever messages the worker has handled, the diagnostics of every buffer are sorted by line.
pub Run-IsByLine :
    {m : Buffers} (k : ℕ) (b : BufferDiagnostics) → Run m → get k m ≡ some b → IsByLine b.inner
Run-IsByLine k b r e = Run-all r k b e

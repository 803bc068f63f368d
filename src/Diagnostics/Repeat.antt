-- ===== src/Diagnostics/Repeat.antt =====
-- A report that is received twice adds nothing the second time.
use mathlib.Core.List.{append-nil}
use mathlib.Core.Path.{subst}
use vim_clap.Common.{
  ◌⊎◌, ℕ, ◌≡◌, refl, sym, ◌∙◌, true, false, some, List, [], ◌∷◌, ◌++◌, dedup, arith, Bool-cases,
  inl, inr, Option-cases,
}
use vim_clap.Diagnostics.{
  Diagnostic, BufferDiagnostics, Stats, Stats_default, sort_by_line, append, count_stats,
}
use vim_clap.Diagnostics.Sorted.{sort_by_line_lem, sort_by_line_idem}
use vim_clap.Diagnostics.Worker.{
  set_stats, tried, Vim, VimCall, followups, first_report, later_report, tried, set_stats,
  update_buffer_diagnostics,
}
use vim_clap.Diagnostics.Included.{
  AllIn, same, AllIn-self, followups-AllIn, followups-nil, AllIn-sort, AllIn-append,
}

append-inner :
    (b : BufferDiagnostics) (ds : List Diagnostic) {b' : BufferDiagnostics} {s : Stats}
    → append b ds ≡ some (b', s)
    → (sort_by_line (b.inner ++ ds) ≡ some b'.inner)
      × (b'.first_result_arrived ≡ b.first_result_arrived)
unfolding append
append-inner b ds h = ground arith

-- What an update leaves: every diagnostic of the report, sorted and without repetitions, is `==` to one
-- of the buffer, which is sorted.
pub record IsUpdated (b' : BufferDiagnostics) (report : List Diagnostic) : Type 0 where
  arrived : b'.first_result_arrived ≡ true
  pub sorted : sort_by_line b'.inner ≡ some b'.inner
  holds : AllIn b'.inner report

appended :
    (b : BufferDiagnostics) (ds report : List Diagnostic) {b' : BufferDiagnostics} {s : Stats}
    → append b ds ≡ some (b', s)
    → b.first_result_arrived ≡ true
    → AllIn (b.inner ++ ds) report
    → IsUpdated b' report
appended b ds report {b'} h f a =
    let (e, g) = append-inner b ds h in
    record {
      arrived = g ∙ f;
      sorted = sort_by_line_idem (b.inner ++ ds) e;
      holds =
          subst (λ l. AllIn l report) (sym (sort_by_line_lem (b.inner ++ ds) e))
            (AllIn-sort (b.inner ++ ds) report a);
    }

first_report-IsUpdated :
    (n : ℕ) (vim : Vim) (b : BufferDiagnostics) (report : List Diagnostic) {b' : BufferDiagnostics}
    {calls : List VimCall}
    → first_report n vim b report ≡ some (b', calls)
    → AllIn report report
    → IsUpdated b' report
unfolding first_report
first_report-IsUpdated n vim b report {b'} h a =
    let b1 : BufferDiagnostics = record b { first_result_arrived = true } in
    elim (Option-cases (append b1 report)) [
      | inl e ↦ absurd (ground arith)
      | inr ((b2, s), e) ↦
          let same_state : b' ≡ b2 = ground arith in
          rw same_state (appended b1 report report e refl (AllIn-append b.inner report report a))
    ]

later_report-IsUpdated :
    (n : ℕ) (vim : Vim) (b : BufferDiagnostics) (report : List Diagnostic) {b' : BufferDiagnostics}
    {calls : List VimCall}
    → later_report n vim b report ≡ some (b', calls)
    → b.first_result_arrived ≡ true
    → IsUpdated b' report
unfolding later_report
later_report-IsUpdated n vim b report {b'} h f =
    elim (Option-cases (append b (followups b.inner report))) [
      | inl e ↦ absurd (ground arith)
      | inr ((b2, s), e) ↦
          let same_state : b' ≡ b2 = ground arith in
          rw same_state
            (appended b (followups b.inner report) report e f (followups-AllIn b.inner report))
    ]

pub update-IsUpdated :
    (n : ℕ) (vim : Vim) (b : BufferDiagnostics) (ds : List Diagnostic) {b' : BufferDiagnostics}
    {calls : List VimCall}
    → update_buffer_diagnostics n vim b ds ≡ some (b', calls)
    → (sorted : List Diagnostic) × (sort_by_line ds ≡ some sorted)
      × IsUpdated b' (dedup same sorted)
unfolding update_buffer_diagnostics
update-IsUpdated n vim b ds {b'} {calls} h = elim (Option-cases (sort_by_line ds)) [
  | inl e ↦ absurd (ground arith)
  | inr (sorted, e) ↦ (sorted, e, by_arrival sorted e (Bool-cases b.first_result_arrived))
]
  where
    by_arrival :
        (sorted : List Diagnostic)
        → sort_by_line ds ≡ some sorted
        → (b.first_result_arrived ≡ true) ⊎ (b.first_result_arrived ≡ false)
        → IsUpdated b' (dedup same sorted)
    by_arrival sorted e (inl f) =
        later_report-IsUpdated n vim b (dedup same sorted) {calls = calls} (ground arith) f
    by_arrival sorted e (inr f) =
        first_report-IsUpdated n vim b (dedup same sorted) {calls = calls} (ground arith)
          (AllIn-self (dedup same sorted))

again :
    (n : ℕ) (vim : Vim) (b' : BufferDiagnostics) (ds sorted : List Diagnostic)
    → sort_by_line ds ≡ some sorted
    → IsUpdated b' (dedup same sorted)
    → update_buffer_diagnostics n vim b' ds
      ≡ some (b', tried vim (set_stats n (count_stats b'.inner Stats_default) ∷ []))
unfolding update_buffer_diagnostics later_report append
again n vim b' ds sorted e u =
    let none_new = followups-nil b'.inner (dedup same sorted) u.holds in
    let whole = append-nil b'.inner in ground (arith, e, none_new, whole, u.sorted, u.arrived)

-- A report that a buffer has received adds nothing when it is received again: the state stays, no
-- highlight is sent, and the statistics are sent once more.
pub update_buffer_diagnostics-repeat :
    (n : ℕ) (vim vim' : Vim) (b : BufferDiagnostics) (ds : List Diagnostic) {b' : BufferDiagnostics}
    {calls : List VimCall}
    → update_buffer_diagnostics n vim b ds ≡ some (b', calls)
    → update_buffer_diagnostics n vim' b' ds
      ≡ some (b', tried vim' (set_stats n (count_stats b'.inner Stats_default) ∷ []))
update_buffer_diagnostics-repeat n vim vim' b ds {b'} h =
    let (sorted, e, u) = update-IsUpdated n vim b ds h in again n vim' b' ds sorted e u

-- ===== src/Diagnostics/Sorted.antt =====
-- The diagnostics of every buffer are sorted by line, and the statistics count them.
use vim_clap.Common.{
  ◌+◌, ◌≡◌, ◌∙◌, Bool, true, false, some, List, [], ◌∷◌, ◌++◌, length, all, count-append, count,
  arith, inl, inr, Option-cases,
}
use vim_clap.Common.Order.{
  sort, IsSorted, sort-IsSorted, sort-of_IsSorted, length-sort, all-sort, count-sort,
}
use vim_clap.Diagnostics.{
  Diagnostic, Stats, Stats_default, BufferDiagnostics, line_before, has_span, sort_by_line,
  count_stats, tally, append, is_error, is_warn, is_hint,
}

pub line_before_asym : (a b : Diagnostic) → line_before a b ≡ true → line_before b a ≡ false
line_before_asym a b h = ground arith

abbrev pub IsByLine : List Diagnostic → Type 0
IsByLine = IsSorted line_before

pub sort_by_line_lem :
    (ds : List Diagnostic) {sorted : List Diagnostic}
    → sort_by_line ds ≡ some sorted
    → sorted ≡ sort line_before ds
unfolding sort_by_line
sort_by_line_lem ds h = ground arith

pub sort_by_line-IsByLine :
    (ds : List Diagnostic) {sorted : List Diagnostic}
    → sort_by_line ds ≡ some sorted
    → IsByLine sorted
sort_by_line-IsByLine ds h = rw (sort_by_line_lem ds h) (sort-IsSorted line_before_asym ds)

-- What was sorted is sorted again to itself.
pub sort_by_line_idem :
    (ds : List Diagnostic) {sorted : List Diagnostic}
    → sort_by_line ds ≡ some sorted
    → sort_by_line sorted ≡ some sorted
unfolding sort_by_line
sort_by_line_idem ds {sorted} h =
    let e = sort_by_line_lem ds h in
    let len : length sorted ≡ length ds = rw e (length-sort line_before ds) in
    let spans : all has_span sorted ≡ all has_span ds = rw e (all-sort line_before has_span ds) in
    let again = sort-of_IsSorted line_before sorted (sort_by_line-IsByLine ds h) in
    ground (arith, len, spans, again)

tally-count :
    (d : Diagnostic) (s : Stats)
    → ((tally d s).error ≡ s.error + count is_error (d ∷ []))
      × ((tally d s).warn ≡ s.warn + count is_warn (d ∷ []))
      × ((tally d s).hint ≡ s.hint + count is_hint (d ∷ []))
unfolding tally
tally-count d s = ground arith

count_stats-count :
    (ds : List Diagnostic) (s : Stats)
    → ((count_stats ds s).error ≡ s.error + count is_error ds)
      × ((count_stats ds s).warn ≡ s.warn + count is_warn ds)
      × ((count_stats ds s).hint ≡ s.hint + count is_hint ds)
unfolding count_stats
count_stats-count [] s = omega arith
count_stats-count (d ∷ ds) s = omega (arith, tally-count d s, count_stats-count ds (tally d s))

-- Appending sorts the buffer's diagnostics by line and keeps each of the old and the new ones, with
-- every multiplicity; the statistics are the numbers of errors, warnings and hints.
pub append-IsByLine :
    (b : BufferDiagnostics) (ds : List Diagnostic) (p : Diagnostic → Bool) {b' : BufferDiagnostics}
    {s : Stats}
    → append b ds ≡ some (b', s)
    → IsByLine b'.inner
      × (count p b'.inner ≡ count p b.inner + count p ds)
      × (b'.first_result_arrived ≡ b.first_result_arrived)
      × (s.error ≡ count is_error b'.inner)
      × (s.warn ≡ count is_warn b'.inner)
      × (s.hint ≡ count is_hint b'.inner)
unfolding append
append-IsByLine b ds p {b'} {s} h = elim (Option-cases (sort_by_line (b.inner ++ ds))) [
  | inl e ↦ absurd (ground arith)
  | inr (sorted, e) ↦
      let inner : b'.inner ≡ sorted = ground arith in
      let stats : s ≡ count_stats sorted Stats_default = ground arith in
      let counts = count_stats-count sorted Stats_default in
      let same = sort_by_line_lem (b.inner ++ ds) e in
      (
        rw inner (sort_by_line-IsByLine (b.inner ++ ds) e),
        rw (inner, same) (count-sort line_before p (b.inner ++ ds) ∙ count-append p b.inner ds),
        ground arith,
        rw (inner, stats) (omega (arith, counts.0)),
        rw (inner, stats) (omega (arith, counts.1)),
        rw (inner, stats) (omega (arith, counts.2)),
      )
]

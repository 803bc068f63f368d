-- ===== src/Git/Counts.antt =====
-- What the hunks of crates/maple_core/src/tools/git/mod.rs count.
use vim_clap.Common.{◌-◌, ltb, inr, inl, ◌==◌, Bool-cases, refl}
use vim_clap.Git.{
  modified_and_removed, modified_and_added, only_modified, only_removed, only_added, Hunk,
  HunkSummary, Summary, summary, added_of, removed_of, modified_of, change_type, add_summaries,
  get_diff_summary,
}
use vim_clap.Common.{[], arith, ◌∷◌, ℕ, All, ◌≢◌, some, List, ◌≡◌, ◌+◌}

-- A hunk of a diff changes something.
abbrev pub IsChange : Hunk → Type 0
IsChange h = h.old_count + h.new_count ≢ 0

abbrev pub new_lines : List Hunk → ℕ
new_lines [] = 0
new_lines (h ∷ hs) = h.new_count + new_lines hs

abbrev pub old_lines : List Hunk → ℕ
old_lines [] = 0
old_lines (h ∷ hs) = h.old_count + old_lines hs

summary-counts :
    (h : Hunk)
    → IsChange h
    → (s : HunkSummary) × (summary h ≡ some s)
      × (added_of s + modified_of s ≡ h.new_count)
      × (removed_of s + modified_of s ≡ h.old_count)
unfolding summary change_type added_of removed_of modified_of
summary-counts h n = elim (Bool-cases (h.old_count == 0)) [
  | inl a ↦ (only_added h.new_count, ground arith, ground arith, ground arith)
  | inr a ↦ elim (Bool-cases (h.new_count == 0)) [
    | inl b ↦ (only_removed h.old_count, ground arith, ground arith, ground arith)
    | inr b ↦ elim (Bool-cases (h.old_count == h.new_count)) [
      | inl c ↦ (only_modified h.new_count, ground arith, ground arith, ground arith)
      | inr c ↦ elim (Bool-cases (ltb h.old_count h.new_count)) [
        | inl d ↦ (
          modified_and_added h.old_count (h.new_count - h.old_count),
          ground arith,
          ground arith,
          ground arith,
        )
        | inr d ↦ (
          modified_and_removed h.new_count (h.old_count - h.new_count),
          ground arith,
          ground arith,
          ground arith,
        )
      ]
    ]
  ]
]

add_summaries-counts :
    (hs : List Hunk) (total : Summary)
    → All IsChange hs
    → (s : Summary) × (add_summaries hs total ≡ some s)
      × (s.added + s.modified ≡ total.added + total.modified + new_lines hs)
      × (s.removed + s.modified ≡ total.removed + total.modified + old_lines hs)
unfolding add_summaries
add_summaries-counts [] total n = (total, refl, omega arith, omega arith)
add_summaries-counts (h ∷ hs) total (n, ns) =
    let (s, e, new, old) = summary-counts h n in
    let (r, f, new', old') =
      add_summaries-counts hs
        (record {
          added = total.added + added_of s;
          modified = total.modified + modified_of s;
          removed = total.removed + removed_of s;
        })
        ns in
    (r, rw e f, omega (arith, new, new'), omega (arith, old, old'))

-- Where every hunk changes something, the summary of a diff is there, and it accounts for each line:
-- the added and modified lines together are the new lines of the hunks, the removed and modified lines
-- the old ones.
pub get_diff_summary-counts :
    (hs : List Hunk)
    → All IsChange hs
    → (s : Summary) × (get_diff_summary hs ≡ some s)
      × (s.added + s.modified ≡ new_lines hs)
      × (s.removed + s.modified ≡ old_lines hs)
unfolding get_diff_summary
get_diff_summary-counts hs n =
    let (s, e, new, old) =
      add_summaries-counts hs (record { added = 0; modified = 0; removed = 0 }) n in
    (s, e, omega (arith, new), omega (arith, old))

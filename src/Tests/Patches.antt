-- ===== src/Tests/Patches.antt =====
-- A diff of two hunks, and a patch of a JSON object.
use vim_clap.Common.{arith, ◌+◌, ◌≡◌, refl, some, [], ◌∷◌, filter}
use vim_clap.Text.{codes}
use vim_clap.Git.{
  Hunk, Summary, Modification, get_diff_summary, modification, signs_in_range, contains, range,
  lines_from,
}
use vim_clap.Git.Counts.{new_lines, old_lines, get_diff_summary-counts}
use vim_clap.Git.Signs.{sign_lines, signs_in_range-lines}
use vim_clap.JsonPatch.{Fields, no_fields, field, null, number, object, get_field, merge_fields}
use vim_clap.JsonPatch.Lookup.{patched, merge_fields-lookup}

abbrev three_for_one : Hunk
three_for_one = record { old_start = 4; old_count = 1; new_start = 5; new_count = 3 }

abbrev two_removed : Hunk
two_removed = record { old_start = 9; old_count = 2; new_start = 11; new_count = 0 }

get_diff_summary-counts_example :
    (s : Summary) × (get_diff_summary (three_for_one ∷ two_removed ∷ []) ≡ some s)
    × (s.added + s.modified ≡ new_lines (three_for_one ∷ two_removed ∷ []))
    × (s.removed + s.modified ≡ old_lines (three_for_one ∷ two_removed ∷ []))
get_diff_summary-counts_example =
    get_diff_summary-counts (three_for_one ∷ two_removed ∷ [])
      ((λ h. ground arith), ((λ h. ground arith), tt))

signs_in_range-lines_example :
    (m : Modification) × (modification three_for_one ≡ some m)
    × (sign_lines (signs_in_range m (range 6 20)) ≡ filter (contains (range 6 20)) (lines_from 5 3))
signs_in_range-lines_example = signs_in_range-lines three_for_one (range 6 20) (λ h. ground arith)

abbrev settings : Fields
settings = field (codes "a") (number (codes "1")) (field (codes "b") (number (codes "2")) no_fields)

abbrev patch : Fields
patch = field (codes "a") null (field (codes "c") (object no_fields) no_fields)

merge_fields-lookup_example :
    get_field (codes "a") (merge_fields settings patch)
    ≡ patched (get_field (codes "a") settings) (get_field (codes "a") patch)
unfolding get_field
merge_fields-lookup_example = merge_fields-lookup (codes "a") settings patch (refl, (refl, tt))

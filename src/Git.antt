-- ===== src/Git.antt =====
-- crates/maple_core/src/tools/git/mod.rs: the hunks of a diff, what they add and remove, and the signs
-- they put beside the lines of a buffer. Running git is left out: its output is a text.
pub mod Counts
pub mod Signs
pub mod Blame
pub mod Plugin
use vim_clap.Common.{
  ℕ, zero, suc, ◌+◌, ◌-◌, ◌*◌, ◌^◌, ◌==◌, Bool, true, false, ◌&&◌, Option, none, some, List, [],
  ◌∷◌, ◌++◌, map, if◌then◌else◌, ltb, leb, max, min,
}
use vim_clap.Common.Options.{◌>>=◌}
use vim_clap.Text.{Text, codes, starts_with}

pub record Summary : Type 0 where
  pub added : ℕ
  pub modified : ℕ
  pub removed : ℕ

pub data HunkSummary : Type 0 where
  only_added only_removed only_modified : ℕ → HunkSummary
  modified_and_added modified_and_removed : ℕ → ℕ → HunkSummary

unfoldable pub added_of : HunkSummary → ℕ
added_of (only_added added) = added
added_of (modified_and_added modified added) = added
added_of (only_removed removed) = 0
added_of (only_modified modified) = 0
added_of (modified_and_removed modified removed) = 0

unfoldable pub removed_of : HunkSummary → ℕ
removed_of (only_removed removed) = removed
removed_of (modified_and_removed modified removed) = removed
removed_of (only_added added) = 0
removed_of (only_modified modified) = 0
removed_of (modified_and_added modified added) = 0

unfoldable pub modified_of : HunkSummary → ℕ
modified_of (only_modified modified) = modified
modified_of (modified_and_added modified added) = modified
modified_of (modified_and_removed modified removed) = modified
modified_of (only_added added) = 0
modified_of (only_removed removed) = 0

pub data ChangeType : Type 0 where
  added removed modified added_too removed_too : ChangeType

-- `Range<usize>`, without its end.
pub record Range : Type 0 where
  pub start : ℕ
  pub end : ℕ

abbrev pub range : ℕ → ℕ → Range
range start end = record { start = start; end = end }

abbrev pub lines_from : ℕ → ℕ → List ℕ
lines_from start zero = []
lines_from start (suc n) = start ∷ lines_from (suc start) n

-- The lines that the iterator of a range gives.
abbrev pub lines_of : Range → List ℕ
lines_of r = lines_from r.start (r.end - r.start)

abbrev pub contains : Range → ℕ → Bool
contains r lnum = leb r.start lnum && ltb lnum r.end

pub data Modification : Type 0 where
  added_lines modified_lines : Range → Modification
  removed_first_line : Modification
  removed_above_and_below removed_line : ℕ → Modification
  modified_and_added_lines : Range → Range → Modification
  modified_and_removed_lines : Range → ℕ → Modification

pub data SignType : Type 0 where
  added_sign removed_sign modified_sign modified_removed_sign above_and_below_sign : SignType

unfoldable pub intersection : Range → Range → Option Range
intersection one other =
    let start = max one.start other.start in
    let end = min one.end other.end in if leb start end then some (range start end) else none

-- The signs of a range where it is visible.
unfoldable pub signs_of_range : SignType → Range → Range → List (ℕ × SignType)
unfolding intersection
signs_of_range sign lines visual_range = elim (intersection lines visual_range) [
  | none ↦ []
  | some to_add ↦ map (λ lnum. (lnum, sign)) (lines_of to_add)
]

unfoldable pub sign_of_line : SignType → ℕ → Range → List (ℕ × SignType)
sign_of_line sign lnum visual_range = if contains visual_range lnum then (lnum, sign) ∷ [] else []

unfoldable pub signs_in_range : Modification → Range → List (ℕ × SignType)
unfolding signs_of_range sign_of_line
signs_in_range (added_lines lines) v = signs_of_range added_sign lines v
signs_in_range removed_first_line v = sign_of_line removed_sign 1 v
signs_in_range (removed_above_and_below lnum) v = sign_of_line above_and_below_sign lnum v
signs_in_range (removed_line lnum) v = sign_of_line removed_sign lnum v
signs_in_range (modified_lines lines) v = signs_of_range modified_sign lines v
signs_in_range (modified_and_added_lines changed more) v =
    signs_of_range modified_sign changed v ++ signs_of_range added_sign more v
signs_in_range (modified_and_removed_lines changed lnum) v =
    signs_of_range modified_sign changed v ++ sign_of_line modified_removed_sign lnum v

pub record Hunk : Type 0 where
  pub old_start : ℕ
  pub old_count : ℕ
  pub new_start : ℕ
  pub new_count : ℕ

-- `none` is the panic of `unreachable!`.
unfoldable pub change_type : Hunk → Option ChangeType
change_type h =
    if h.old_count == 0 && ltb 0 h.new_count
    then some ChangeType.added
    else if ltb 0 h.old_count && h.new_count == 0
    then some ChangeType.removed
    else if ltb 0 h.old_count && ltb 0 h.new_count
    then (if h.old_count == h.new_count
        then some ChangeType.modified
        else if ltb h.old_count h.new_count
        then some ChangeType.added_too
        else some ChangeType.removed_too)
    else none

abbrev pub summary_as : Hunk → ChangeType → HunkSummary
summary_as h ChangeType.added = only_added h.new_count
summary_as h ChangeType.removed = only_removed h.old_count
summary_as h ChangeType.modified = only_modified h.new_count
summary_as h ChangeType.added_too = modified_and_added h.old_count (h.new_count - h.old_count)
summary_as h ChangeType.removed_too = modified_and_removed h.new_count (h.old_count - h.new_count)

unfoldable pub summary : Hunk → Option HunkSummary
unfolding change_type
summary h = change_type h >>= λ ty. some (summary_as h ty)

abbrev pub modification_as : Hunk → ChangeType → Modification
modification_as h ChangeType.added = added_lines (range h.new_start (h.new_start + h.new_count))
modification_as h ChangeType.removed =
    if h.new_start == 0 then removed_first_line else removed_line h.new_start
modification_as h ChangeType.modified =
    modified_lines (range h.new_start (h.new_start + h.new_count))
modification_as h ChangeType.added_too =
    modified_and_added_lines (range h.new_start (h.new_start + h.old_count))
      (range (h.new_start + h.old_count) (h.new_start + h.new_count))
modification_as h ChangeType.removed_too =
    modified_and_removed_lines (range h.new_start (h.new_start + h.new_count - 1))
      (h.new_start + h.new_count - 1)

unfoldable pub modification : Hunk → Option Modification
unfolding change_type
modification h = change_type h >>= λ ty. some (modification_as h ty)

-- The `for_each` of `get_diff_summary`.
unfoldable pub add_summaries : List Hunk → Summary → Option Summary
unfolding summary added_of removed_of modified_of
add_summaries [] total = some total
add_summaries (h ∷ hs) total = do
  s ← summary h
  add_summaries hs (record {
    added = total.added + added_of s;
    modified = total.modified + modified_of s;
    removed = total.removed + removed_of s;
  })

unfoldable pub get_diff_summary : List Hunk → Option Summary
unfolding add_summaries
get_diff_summary hunks = add_summaries hunks (record { added = 0; modified = 0; removed = 0 })

unfoldable pub modifications_of : List Hunk → Option (List Modification)
unfolding modification
modifications_of [] = some []
modifications_of (h ∷ hs) = do m ← modification h; ms ← modifications_of hs; some (m ∷ ms)

-- A first line that is removed above and below gets one sign.
unfoldable pub handle_double_hunks : List Modification → List Modification
handle_double_hunks (removed_first_line ∷ removed_line lnum ∷ ms) =
    if lnum == 1
    then removed_above_and_below 1 ∷ ms
    else removed_first_line ∷ removed_line lnum ∷ ms
handle_double_hunks ms = ms

unfoldable pub hunks_to_modifications : List Hunk → Option (List Modification)
unfolding modifications_of handle_double_hunks
hunks_to_modifications hunks = modifications_of hunks >>= λ ms. some (handle_double_hunks ms)

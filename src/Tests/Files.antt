-- ===== src/Tests/Files.antt =====
-- Recent files, with the seconds as times.
use vim_clap.Common.{ℕ, ◌*◌, ◌-◌, ◌≤◌, true, some, [], ◌∷◌, count, ltb, arith}
use vim_clap.Common.Int.{pos}
use vim_clap.Text.{Text, codes}
use vim_clap.RecentFiles.{
  Clock, FileSystem, FrecentEntry, SortedRecentFiles, frequency, has_path, upsert,
}
use vim_clap.RecentFiles.Laws.{IsRecent, upsert-IsRecent}

abbrev seconds : Clock ℕ
seconds = record { later = λ a b. ltb b a; seconds_since = λ a b. pos (a - b) }

abbrev entry_of : Text → ℕ → FrecentEntry ℕ
entry_of path n = record { fpath = path; last_visit = 5; visits = n; frecent_score = 4 * n }

abbrev files : SortedRecentFiles ℕ
files = record {
  max_entries = 3;
  sort_preference = frequency;
  entries = entry_of (codes "/b") 3 ∷ entry_of (codes "/a") 1 ∷ [];
}

files_distinct : (p : Text) → count (has_path p) files.entries ≤ 1
files_distinct p = ground arith

upsert-IsRecent_example : IsRecent seconds (upsert seconds 9 (codes "/a") files)
upsert-IsRecent_example =
    upsert-IsRecent seconds (λ a b h. ground arith) 9 (codes "/a") files files_distinct

-- Every path is canonical and names a file.
abbrev disk : FileSystem
disk = record { canonicalize = λ path. some path; is_file = λ path. true }

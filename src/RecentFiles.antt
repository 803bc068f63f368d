-- ===== src/RecentFiles.antt =====
-- crates/maple_core/src/recent_files.rs: the recent files, sorted by frecency. Times are those of the
-- crate chrono, a parameter; so are the answers of the file system.
pub mod Laws
pub mod Valid
use mathlib.Core.Option
use vim_clap.Common.{
  ℕ, zero, suc, ◌+◌, ◌*◌, ◌/◌, ◌%◌, ◌^◌, Bool, true, false, ◌&&◌, ◌||◌, Option, none, some, List,
  [], ◌∷◌, ◌++◌, map, ltb, ◌==◌, if◌then◌else◌, length, any, position, take,
}
use vim_clap.Common.Int.{ℤ, pos, ltb_ℤ}
use vim_clap.Common.Order.{sort}
use vim_clap.Text.{Text, text_eq, starts_with}

abbrev pub hour : ℕ
hour = 3600

abbrev pub day : ℕ
day = hour * 24

abbrev pub week : ℕ
week = day * 7

abbrev pub month : ℕ
month = day * 30

abbrev pub max_entries_default : ℕ
max_entries_default = 10000

-- `u64`
abbrev pub wrap_u64 : ℕ → ℕ
wrap_u64 n = n % 2 ^ 64

-- `a > b`, and the seconds of `a.signed_duration_since(b)`.
pub record Clock (Time : Type 0) : Type 0 where
  pub later : Time → Time → Bool
  pub seconds_since : Time → Time → ℤ

-- `canonicalize(…).ok()`, and `exists() && is_file()`.
pub record FileSystem : Type 0 where
  pub canonicalize : Text → Option Text
  pub is_file : Text → Bool

pub data SortPreference : Type 0 where
  frequency recency frecency : SortPreference

pub record FrecentEntry (Time : Type 0) : Type 0 where
  pub fpath : Text
  pub last_visit : Time
  pub visits : ℕ
  pub frecent_score : ℕ

pub record SortedRecentFiles (Time : Type 0) : Type 0 where
  pub max_entries : ℕ
  pub sort_preference : SortPreference
  pub entries : List (FrecentEntry Time)

module _ {Time : Type 0} where
  -- `PartialEq`: the paths are compared.
  abbrev pub has_path : Text → FrecentEntry Time → Bool
  has_path file e = text_eq e.fpath file

  unfoldable pub new_entry : Time → Text → FrecentEntry Time
  new_entry now fpath = record { fpath = fpath; last_visit = now; visits = 1; frecent_score = 1 }

  unfoldable pub cwd_preferred_score : FrecentEntry Time → Text → ℕ
  unfolding starts_with
  cwd_preferred_score e cwd =
      if starts_with e.fpath cwd then wrap_u64 (e.frecent_score * 2) else e.frecent_score

  unfoldable pub recent_files_default : SortedRecentFiles Time
  recent_files_default = record {
    max_entries = max_entries_default;
    sort_preference = frequency;
    entries = [];
  }

  -- `filter_map` with the set of the paths that were seen.
  unfoldable pub keep_valid :
      FileSystem → List Text → List (FrecentEntry Time) → List (FrecentEntry Time)
  keep_valid fs paths [] = []
  keep_valid fs paths (e ∷ es) = elim (fs.canonicalize e.fpath) [
    | none ↦ keep_valid fs paths es
    | some path ↦
        let rest = keep_valid fs (path ∷ paths) es in
        if any (λ p. text_eq p path) paths
        then keep_valid fs paths es
        else if fs.is_file path
        then e ∷ rest
        else rest
  ]

  unfoldable pub remove_invalid_entries :
      FileSystem → SortedRecentFiles Time → SortedRecentFiles Time
  unfolding keep_valid
  remove_invalid_entries fs s = record s { entries = keep_valid fs [] s.entries }

  unfoldable pub sort_by_cwd : Text → SortedRecentFiles Time → SortedRecentFiles Time
  unfolding cwd_preferred_score sort
  sort_by_cwd cwd s = record s {
    entries = sort (λ a b. ltb (cwd_preferred_score b cwd) (cwd_preferred_score a cwd)) s.entries;
  }

  unfoldable pub recent_n_files : ℕ → SortedRecentFiles Time → List Text
  recent_n_files n s = map (λ e. e.fpath) (take n s.entries)

module _ {Time : Type 0} (clock : Clock Time) where
  -- `a > b`: by the score, the visits, the time of the last visit.
  abbrev pub entry_gt : FrecentEntry Time → FrecentEntry Time → Bool
  entry_gt a b =
      if ltb b.frecent_score a.frecent_score
      then true
      else if ltb a.frecent_score b.frecent_score
      then false
      else if ltb b.visits a.visits
      then true
      else if ltb a.visits b.visits
      then false
      else clock.later a.last_visit b.last_visit

  -- `update_frecent(Some(now))`
  unfoldable pub update_frecent : Time → FrecentEntry Time → FrecentEntry Time
  update_frecent now e =
      let duration = clock.seconds_since now e.last_visit in
      record e {
        frecent_score =
            if ltb_ℤ duration (pos hour)
            then wrap_u64 (e.visits * 4)
            else if ltb_ℤ duration (pos day)
            then wrap_u64 (e.visits * 2)
            else if ltb_ℤ duration (pos week)
            then wrap_u64 (e.visits * 3) / 2
            else if ltb_ℤ duration (pos month)
            then e.visits / 2
            else e.visits / 4;
      }

  unfoldable pub refresh_now : Time → FrecentEntry Time → FrecentEntry Time
  unfolding update_frecent
  refresh_now now e =
      update_frecent now (record e { last_visit = now; visits = wrap_u64 (e.visits + 1) })

  -- The first entry of the file is refreshed, or a new one is pushed.
  unfoldable pub visit : Time → Text → List (FrecentEntry Time) → List (FrecentEntry Time)
  unfolding refresh_now new_entry
  visit now file [] = new_entry now file ∷ []
  visit now file (e ∷ es) =
      let rest = e ∷ visit now file es in if has_path file e then refresh_now now e ∷ es else rest

  -- `upsert`. Whether the file on the disk could be written changes nothing here.
  unfoldable pub upsert : Time → Text → SortedRecentFiles Time → SortedRecentFiles Time
  unfolding visit sort
  upsert now file s = record s {
    entries = take s.max_entries (sort entry_gt (visit now file s.entries));
  }

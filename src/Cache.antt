-- ===== src/Cache.antt =====
-- crates/maple_core/src/cache/mod.rs: the digests of the commands whose results are cached. Times are
-- those of the crate chrono and the answers of the file system are parameters; one operation reads the
-- clock once.
pub mod Laws
use mathlib.Core.Option
use vim_clap.Common.{
  ℕ, zero, suc, ◌+◌, ◌-◌, ◌==◌, Bool, true, false, not, ◌&&◌, ◌||◌, Option, none, some, List, [],
  ◌∷◌, ◌++◌, ltb, if◌then◌else◌, length, position, get_elem?, set, last, take, filter, map,
}
use vim_clap.Common.Int.{ℤ, pos, ltb_ℤ}
use vim_clap.Common.Order.{sort}
use vim_clap.Text.{Text, text_eq}

-- `num_seconds` of the sum of two durations and `num_days` of one.
pub record Calendar (Time : Type 0) : Type 0 where
  pub stale_seconds : Time → Time → Time → ℤ
  pub days_since : Time → Time → ℤ

pub record Disk : Type 0 where
  pub path_exists : Text → Bool
  pub line_count : Text → Option ℕ

-- crates/maple_core/src/process/mod.rs
pub record ShellCommand : Type 0 where
  pub command : Text
  pub dir : Text

abbrev pub command_eq : ShellCommand → ShellCommand → Bool
command_eq a b = text_eq a.command b.command && text_eq a.dir b.dir

pub record Digest (Time : Type 0) : Type 0 where
  pub shell_cmd : ShellCommand
  pub last_visit : Time
  pub execution_time : Time
  pub total : ℕ
  pub total_visits : ℕ
  pub total_executions : ℕ
  pub cached_path : Text

abbrev pub max_digests : ℕ
max_digests = 100

abbrev pub execution_expiration_days : ℕ
execution_expiration_days = 3

abbrev pub max_days : ℕ
max_days = 30

module _ {Time : Type 0} where
  unfoldable pub new_digest : Time → ShellCommand → ℕ → Text → Digest Time
  new_digest now shell_cmd total cached_path = record {
    shell_cmd = shell_cmd;
    last_visit = now;
    execution_time = now;
    total = total;
    total_visits = 1;
    total_executions = 1;
    cached_path = cached_path;
  }

  abbrev pub has_command : ShellCommand → Digest Time → Bool
  has_command shell_cmd d = command_eq d.shell_cmd shell_cmd

  unfoldable pub find_digest : ShellCommand → List (Digest Time) → Option ℕ
  find_digest shell_cmd digests = position (has_command shell_cmd) digests

  -- `swap_remove`, for a position in range: the last digest takes the place.
  unfoldable pub prune_stale : ℕ → List (Digest Time) → List (Digest Time)
  prune_stale index digests = elim (last digests) [
    | none ↦ digests
    | some d ↦ take (length digests - 1) (set digests index d)
  ]

module _ {Time : Type 0} (calendar : Calendar Time) where
  unfoldable pub stale_score : Time → Digest Time → ℤ
  stale_score now d = calendar.stale_seconds now d.execution_time d.last_visit

  unfoldable pub is_usable : Disk → Time → Digest Time → Bool
  is_usable disk now d =
      if ltb_ℤ (pos execution_expiration_days) (calendar.days_since now d.execution_time)
      then false
      else disk.path_exists d.cached_path

  -- The digests, and the one that is found.
  unfoldable pub lookup_usable_digest :
      Disk → Time → ShellCommand → List (Digest Time) → List (Digest Time) × Option (Digest Time)
  unfolding find_digest is_usable prune_stale
  lookup_usable_digest disk now shell_cmd digests = elim (find_digest shell_cmd digests) [
    | none ↦ (digests, none)
    | some index ↦ elim (get_elem? digests index) [
      | none ↦ (digests, none)
      | some d ↦
          let visited = record d { total_visits = d.total_visits + 1; last_visit = now } in
          if is_usable disk now d
          then (set digests index visited, some visited)
          else (prune_stale index digests, none)
    ]
  ]

  -- `retain`: the digests that stay, and the files that are removed.
  unfoldable pub is_retained : Disk → Time → Digest Time → Bool
  is_retained disk now d =
      disk.path_exists d.shell_cmd.dir
      && disk.path_exists d.cached_path
      && ltb_ℤ (calendar.days_since now d.last_visit) (pos max_days)
      && elim (disk.line_count d.cached_path) [ none ↦ false | some total ↦ total == d.total ]

  unfoldable pub remove_invalid_and_old_entries :
      Disk → Time → List (Digest Time) → List (Digest Time) × List Text
  unfolding is_retained
  remove_invalid_and_old_entries disk now digests = (
    filter (is_retained disk now) digests,
    map (λ d. d.cached_path) (filter (λ d. not (is_retained disk now d)) digests),
  )

  -- The stalest digest is dropped if there are too many.
  unfoldable pub evict : Time → List (Digest Time) → List (Digest Time)
  unfolding stale_score sort
  evict now digests =
      if ltb max_digests (length digests)
      then take (length digests - 1)
          (sort (λ a b. ltb_ℤ (stale_score now a) (stale_score now b)) digests)
      else digests

  -- `limited_push`, whose result is that of writing to the disk.
  unfoldable pub limited_push : Time → Digest Time → List (Digest Time) → List (Digest Time)
  unfolding find_digest evict
  limited_push now digest digests = elim (find_digest digest.shell_cmd digests) [
    | none ↦ evict now (digests ++ digest ∷ [])
    | some index ↦ elim (get_elem? digests index) [
      | none ↦ digests
      | some old ↦
          set digests index
            (record digest { total_executions = digest.total_executions + old.total_executions })
    ]
  ]

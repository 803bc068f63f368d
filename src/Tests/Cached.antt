-- ===== src/Tests/Cached.antt =====
-- The cache of commands, with the seconds as times.
use vim_clap.Common.{ℕ, ◌+◌, ◌-◌, ◌/◌, true, some, List, [], ◌∷◌, arith}
use vim_clap.Common.Int.{pos}
use vim_clap.Text.{Text, codes}
use vim_clap.Cache.{Calendar, Digest, Disk, limited_push}
use vim_clap.Cache.Laws.{IsCache, limited_push-IsCache}

abbrev seconds : Calendar ℕ
seconds = record {
  stale_seconds = λ now a b. pos ((now - a) + (now - b));
  days_since = λ now a. pos ((now - a) / 86400);
}

abbrev digest_of : Text → Digest ℕ
digest_of command = record {
  shell_cmd = record { command = command; dir = codes "/src" };
  last_visit = 5;
  execution_time = 4;
  total = 2;
  total_visits = 1;
  total_executions = 1;
  cached_path = codes "/cache";
}

abbrev digests : List (Digest ℕ)
digests = digest_of (codes "rg") ∷ digest_of (codes "fd") ∷ []

digests-IsCache : IsCache digests
digests-IsCache = record { bounded = omega arith; distinct = λ c. ground arith }

limited_push-IsCache_example : IsCache (limited_push seconds 9 (digest_of (codes "rg")) digests)
limited_push-IsCache_example =
    limited_push-IsCache seconds 9 (digest_of (codes "rg")) digests digests-IsCache

abbrev disk : Disk
disk = record { path_exists = λ path. true; line_count = λ path. some 2 }

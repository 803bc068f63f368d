-- ===== src/Git/Blame.antt =====
-- `parse_blame_info` and `parse_hunk` of crates/maple_core/src/tools/git/mod.rs, and the hunks of the
-- output of `git diff`. The regular expression `HUNK` is run by a library, a parameter.
use mathlib.Core.Option
use vim_clap.Common.{
  ℕ, ◌+◌, ◌-◌, ◌*◌, ◌^◌, ◌==◌, true, false, ◌&&◌, Option, none, some, List, [], ◌∷◌, ◌++◌,
  if◌then◌else◌, ltb, leb,
}
use vim_clap.Common.Int.{ℤ, pos, neg}
use vim_clap.Common.Options.{◌>>=◌}
use vim_clap.Text.{Text, codes, text_eq, starts_with}
use vim_clap.Git.{Hunk}
use vim_clap.Common.{
  ◌-◌, ◌+◌, ◌*◌, ltb, ◌&&◌, ◌^◌, if◌then◌else◌, ◌==◌, leb, none, some, ◌∷◌, Option, [], List, ℕ,
}
use vim_clap.Common.Int.{ℤ}

-- `text.split(c)`
unfoldable pub split_at_char : ℕ → Text → Text → List Text
split_at_char sep piece [] = piece ∷ []
split_at_char sep piece (c ∷ cs) = elim (c == sep) [
  | true ↦ piece ∷ split_at_char sep [] cs
  | false ↦ split_at_char sep (piece ++ c ∷ []) cs
]

-- `text.split_once(c)`
unfoldable pub split_once : ℕ → Text → Text → Option (Text × Text)
split_once sep piece [] = none
split_once sep piece (c ∷ cs) = elim (c == sep) [
  | true ↦ some (piece, cs)
  | false ↦ split_once sep (piece ++ c ∷ []) cs
]

-- The digits of `parse` on an unsigned number; `none` where there is another char, or the number
-- does not fit the bound.
unfoldable pub parse_digits : ℕ → ℕ → Text → Option ℕ
parse_digits bound n [] = some n
parse_digits bound n (c ∷ cs) = elim (leb 48 c && leb c 57 && ltb (n * 10 + (c - 48)) bound) [
  | true ↦ parse_digits bound (n * 10 + (c - 48)) cs
  | false ↦ none
]

-- `text.parse::<usize>().ok()` on 64 bits.
unfoldable pub parse_usize : Text → Option ℕ
unfolding parse_digits
parse_usize [] = none
parse_usize (c ∷ []) = parse_digits (2 ^ 64) 0 (c ∷ [])
parse_usize (c ∷ d ∷ cs) =
    if c == 43 then parse_digits (2 ^ 64) 0 (d ∷ cs) else parse_digits (2 ^ 64) 0 (c ∷ d ∷ cs)

-- `text.parse::<i64>().ok()`
unfoldable pub parse_i64 : Text → Option ℤ
unfolding parse_digits
parse_i64 [] = none
parse_i64 (c ∷ []) = Option.map (λ n. pos n) (parse_digits (2 ^ 63) 0 (c ∷ []))
parse_i64 (c ∷ d ∷ cs) =
    if c == 45
    then Option.map (λ n. neg (pos n)) (parse_digits (2 ^ 63 + 1) 0 (d ∷ cs))
    else if c == 43
    then Option.map (λ n. pos n) (parse_digits (2 ^ 63) 0 (d ∷ cs))
    else Option.map (λ n. pos n) (parse_digits (2 ^ 63) 0 (c ∷ d ∷ cs))

pub record BlameInfo : Type 0 where
  pub author : Text
  pub author_time : Option ℤ
  pub summary : Option Text

-- What the loop has read.
pub record BlameFields : Type 0 where
  pub author : Option Text
  pub author_time : Option Text
  pub summary : Option Text

unfoldable pub read_field : Text → BlameFields → BlameFields
unfolding split_once
read_field line fields = elim (split_once 32 [] line) [
  | none ↦ fields
  | some (k, v) ↦
      if text_eq k (codes "author")
      then record fields { author = some v }
      else if text_eq k (codes "author-time")
      then record fields { author_time = some v }
      else if text_eq k (codes "summary")
      then record fields { summary = some v }
      else fields
]

-- `panicked` is `expect("invalid author_time")`.
pub data Blame : Type 0 where
  not_found : Blame
  found : BlameInfo → Blame
  panicked : Blame

abbrev pub finish_blame : Text → Text → Option ℤ → Blame
finish_blame author summary none = panicked
finish_blame author summary (some time) =
    found (record { author = author; author_time = some time; summary = some summary })

unfoldable pub blame_of : BlameFields → Option Blame
unfolding parse_i64
blame_of f = do
  author ← f.author
  time ← f.author_time
  summary ← f.summary
  some (finish_blame author summary (parse_i64 time))

unfoldable pub read_blame : List Text → BlameFields → Blame
unfolding read_field blame_of
read_blame [] fields = not_found
read_blame (line ∷ lines) fields = elim (blame_of (read_field line fields)) [
  | some blame ↦ blame
  | none ↦ read_blame lines (read_field line fields)
]

-- The output is the text that `from_utf8_lossy` makes of it.
unfoldable pub parse_blame_info : Text → Blame
unfolding read_blame split_at_char
parse_blame_info stdout =
    read_blame (split_at_char 10 [] stdout)
      (record { author = none; author_time = none; summary = none })

-- The groups 1, 3, 4 and 6 of a match of `HUNK`.
pub record Captures : Type 0 where
  pub old_start : Option Text
  pub old_count : Option Text
  pub new_start : Option Text
  pub new_count : Option Text

abbrev pub or_one : Option ℕ → ℕ
or_one none = 1
or_one (some n) = n

module _ (captures : Text → Option Captures) where
  unfoldable pub parse_hunk : Text → Option Hunk
  unfolding parse_usize
  parse_hunk text = do
    caps ← captures text
    old_start ← (caps.old_start >>= parse_usize)
    new_start ← (caps.new_start >>= parse_usize)
    some (record {
      old_start = old_start;
      old_count = or_one (caps.old_count >>= parse_usize);
      new_start = new_start;
      new_count = or_one (caps.new_count >>= parse_usize);
    })

  abbrev pub hunks_of : List Text → List Hunk
  hunks_of [] = []
  hunks_of (line ∷ lines) = elim (if starts_with line (codes "@@") then parse_hunk line else none) [
    | none ↦ hunks_of lines
    | some hunk ↦ hunk ∷ hunks_of lines
  ]

  -- `get_hunks`, of the output of `git diff`.
  unfoldable pub get_hunks : Text → List Hunk
  unfolding parse_hunk split_at_char starts_with
  get_hunks output = hunks_of (split_at_char 10 [] output)

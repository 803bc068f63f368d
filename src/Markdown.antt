-- ===== src/Markdown.antt =====
-- crates/maple_markdown/src/toc.rs: the table of contents of a file. A file is its lines, `none` for a line
-- that is no UTF-8. Regular expressions and percent encoding are those of libraries.
pub mod Range
pub mod Fences
pub mod Plugin
use mathlib.Core.Option
use mathlib.Core.List
use vim_clap.Common.{
  ℕ, zero, suc, ◌+◌, ◌-◌, ◌*◌, ◌==◌, Bool, true, false, not, ◌&&◌, Option, none, some, List, [],
  ◌∷◌, ◌++◌, map, if◌then◌else◌, leb, drop, replicate,
}
use vim_clap.Common.Options.{◌>>=◌}
use vim_clap.Text.{Text, Unicode, codes, text_eq, starts_with, trim, trim_start, trim_end}

pub record Libraries : Type 0 where
  pub unicode : Unicode
  pub percent_encode : Text → Text
  -- The groups of `MARKDOWN_LINK`: the first one.
  pub link_title : Text → Option (Option Text)
  -- Backticks are replaced by what they enclose.
  pub replace_backticks : Text → Text

pub record TocConfig : Type 0 where
  pub bullet : Text
  pub indent : ℕ
  pub max_depth : Option ℕ
  pub min_depth : ℕ
  pub header : Option Text
  pub no_link : Bool

-- `TocConfig::default`
abbrev pub default_config : TocConfig
default_config = record {
  bullet = codes "*";
  indent = 4;
  max_depth = none;
  min_depth = 1;
  header = some (codes "## Table of Contents");
  no_link = false;
}

pub record Heading : Type 0 where
  pub depth : ℕ
  pub title : Text

-- The number of `#`, and what follows.
unfoldable pub skip_hashes : Text → ℕ × Text
skip_hashes [] = (0, [])
skip_hashes (c ∷ cs) =
    let (n, rest) = skip_hashes cs in if c == b'#' then (suc n, rest) else (0, c ∷ cs)

-- `Heading::from_str`
unfoldable pub parse_heading : Text → Option Heading
unfolding skip_hashes trim_end trim_start starts_with
parse_heading s =
    let trimmed = trim_end s in
    let (depth, rest) = skip_hashes trimmed in
    if starts_with trimmed (codes "#")
    then some (record { depth = depth - 1; title = trim_start rest })
    else none

-- `" ".repeat(n)`
abbrev pub spaces : ℕ → Text
spaces n = replicate n b' '

abbrev pub in_depth : TocConfig → ℕ → Bool
in_depth config depth =
    leb config.min_depth depth && (elim config.max_depth [ none ↦ true | some d ↦ leb depth d ])

abbrev pub hyphen : ℕ → ℕ
hyphen c = if c == b' ' then b'-' else c

module _ (lib : Libraries) where
  unfoldable pub slugify : Text → Text
  slugify text = lib.percent_encode (lib.unicode.to_lowercase (map hyphen text))

  abbrev pub linked : Text → Text → Text → Text
  linked before title title_link =
      before ++ codes "[" ++ title ++ codes "](#" ++ slugify title_link ++ codes ")"

  -- `Heading::format`
  unfoldable pub format : TocConfig → Heading → Option Text
  unfolding slugify
  format config h =
      let before =
        spaces (config.indent * (h.depth - config.min_depth))
        ++ config.bullet
        ++ spaces (config.indent - 1) in
      let title_link = lib.replace_backticks h.title in
      let with_link : Option Text = elim (lib.link_title h.title) [
        | none ↦ some (linked before h.title title_link)
        | some group ↦ Option.map (λ title. linked before title title_link) group
      ] in
      if in_depth config h.depth
      then (if config.no_link then some (before ++ h.title) else with_link)
      else none

  unfoldable pub toc_lines : TocConfig → List Text → List Text
  unfolding parse_heading format
  toc_lines config [] = []
  toc_lines config (line ∷ lines) = elim (parse_heading line >>= format config) [
    | none ↦ toc_lines config lines
    | some t ↦ t ∷ toc_lines config lines
  ]

pub data CodeBlockStart : Type 0 where
  backticks tides : CodeBlockStart

abbrev pub fence : CodeBlockStart → Text
fence backticks = codes "```"
fence tides = codes "~~~"

-- The `filter` of `parse_toc`: the lines that stand in no code block.
unfoldable pub outside_code : Option CodeBlockStart → List Text → List Text
unfolding starts_with
outside_code code_fence [] = []
outside_code none (line ∷ lines) =
    let in_backticks = outside_code (some backticks) lines in
    let in_tides = outside_code (some tides) lines in
    let kept = line ∷ outside_code none lines in
    if starts_with line (fence backticks)
    then in_backticks
    else if starts_with line (fence tides)
    then in_tides
    else kept
outside_code (some block) (line ∷ lines) =
    outside_code (if starts_with line (fence block) then none else some block) lines

-- The lines that can be read.
abbrev pub readable : List (Option Text) → List Text
readable [] = []
readable (none ∷ lines) = readable lines
readable (some line ∷ lines) = line ∷ readable lines

unfoldable pub parse_toc : Libraries → List (Option Text) → TocConfig → ℕ → List Text
unfolding toc_lines outside_code
parse_toc lib file config line_start =
    toc_lines lib config (outside_code none (readable (drop line_start file)))

abbrev pub toc_start : Text
toc_start = codes "<!-- clap-markdown-toc -->"

abbrev pub toc_end : Text
toc_end = codes "<!-- /clap-markdown-toc -->"

unfoldable pub generate_toc : Libraries → List (Option Text) → ℕ → ℕ → List Text
unfolding parse_toc
generate_toc lib file line_start shiftwidth =
    toc_start ∷ [] ∷ parse_toc lib file (record default_config { indent = shiftwidth }) line_start
    ++ [] ∷ toc_end ∷ []

-- The loop of `find_toc_range`; a line that cannot be read ends it.
unfoldable pub find_range_from : ℕ → ℕ → List (Option Text) → Option (ℕ × ℕ)
unfolding trim
find_range_from start idx [] = none
find_range_from start idx (none ∷ lines) = none
find_range_from start idx (some line ∷ lines) =
    let rest =
      find_range_from (if text_eq (trim line) toc_start then idx else start) (suc idx) lines in
    if not (text_eq (trim line) toc_start) && text_eq (trim line) toc_end
    then some (start, idx)
    else rest

unfoldable pub find_toc_range : List (Option Text) → Option (ℕ × ℕ)
unfolding find_range_from
find_toc_range file = find_range_from 0 0 file

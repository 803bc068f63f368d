-- ===== src/CodeTools/Analyzer.antt =====
-- crates/code_tools/src/analyzer: the keywords of a language and the priority of a line.
pub mod Bounds
use vim_clap.Common.{
  true, false, false, ℕ, Bool, ◌&&◌, ◌||◌, Option, none, some, List, [], ◌∷◌, ◌++◌, any, take, last,
  if◌then◌else◌, ◌==◌, leb,
}
use vim_clap.Common.Options.{◌>>=◌}
use vim_clap.Text.{Text, codes, text_eq, split_whitespace, trim_start, starts_with}

pub record Keywords : Type 0 where
  pub definition : List Text
  pub reference : List Text
  pub statement : List Text

abbrev pub erlang : Keywords
erlang = record {
  definition = codes "fun" ∷ [];
  reference = [];
  statement =
      codes "after"
      ∷ codes "and"
      ∷ codes "andalso"
      ∷ codes "band"
      ∷ codes "begin"
      ∷ codes "bnot"
      ∷ codes "bor"
      ∷ codes "bsl"
      ∷ codes "bsr"
      ∷ codes "bxor"
      ∷ codes "case"
      ∷ codes "catch"
      ∷ codes "cond"
      ∷ codes "div"
      ∷ codes "end"
      ∷ codes "if"
      ∷ codes "let"
      ∷ codes "not"
      ∷ codes "of"
      ∷ codes "or"
      ∷ codes "orelse"
      ∷ codes "receive"
      ∷ codes "rem"
      ∷ codes "try"
      ∷ codes "when"
      ∷ codes "xor"
      ∷ [];
}

abbrev pub golang : Keywords
golang = record {
  definition =
      codes "enum"
      ∷ codes "interface"
      ∷ codes "struct"
      ∷ codes "func"
      ∷ codes "const"
      ∷ codes "type"
      ∷ codes "package"
      ∷ [];
  reference = codes "import" ∷ [];
  statement =
      codes "break"
      ∷ codes "case"
      ∷ codes "chan"
      ∷ codes "continue"
      ∷ codes "default"
      ∷ codes "defer"
      ∷ codes "else"
      ∷ codes "fallthrough"
      ∷ codes "for"
      ∷ codes "go"
      ∷ codes "goto"
      ∷ codes "if"
      ∷ codes "map"
      ∷ codes "range"
      ∷ codes "return"
      ∷ codes "select"
      ∷ codes "switch"
      ∷ codes "var"
      ∷ [];
}

abbrev pub viml : Keywords
viml = record {
  definition =
      codes "function" ∷ codes "function!" ∷ codes "command" ∷ codes "command!" ∷ codes "cmd" ∷ [];
  reference = codes "let" ∷ [];
  statement =
      codes "for"
      ∷ codes "endfor"
      ∷ codes "while"
      ∷ codes "endwhile"
      ∷ codes "if"
      ∷ codes "elseif"
      ∷ codes "else"
      ∷ codes "endif"
      ∷ codes "call"
      ∷ codes "in"
      ∷ [];
}

abbrev pub rust : Keywords
rust = record {
  definition =
      codes "enum"
      ∷ codes "trait"
      ∷ codes "struct"
      ∷ codes "fn"
      ∷ codes "const"
      ∷ codes "static"
      ∷ codes "crate"
      ∷ codes "mod"
      ∷ [];
  reference = codes "use" ∷ codes "impl" ∷ codes "let" ∷ [];
  statement =
      codes "as"
      ∷ codes "break"
      ∷ codes "continue"
      ∷ codes "else"
      ∷ codes "extern"
      ∷ codes "false"
      ∷ codes "for"
      ∷ codes "if"
      ∷ codes "impl"
      ∷ codes "in"
      ∷ codes "let"
      ∷ codes "loop"
      ∷ codes "match"
      ∷ codes "move"
      ∷ codes "mut"
      ∷ codes "pub"
      ∷ codes "ref"
      ∷ codes "return"
      ∷ codes "self"
      ∷ codes "Self"
      ∷ codes "static"
      ∷ codes "super"
      ∷ codes "true"
      ∷ codes "type"
      ∷ codes "unsafe"
      ∷ codes "where"
      ∷ codes "while"
      ∷ [];
}

abbrev pub is_one_of : List Text → Text → Bool
is_one_of keywords token = any (text_eq token) keywords

-- `keyword_priority` of the trait, and Rust's own.
unfoldable pub keyword_priority : Keywords → Text → Option ℕ
keyword_priority k token =
    if is_one_of k.definition token
    then some 4
    else if is_one_of k.reference token
    then some 6
    else if is_one_of k.statement token
    then some 8
    else none

unfoldable pub rust_keyword_priority : Text → Option ℕ
unfolding starts_with
rust_keyword_priority token =
    if is_one_of rust.definition token
    then some 3
    else if is_one_of rust.reference token
    then some 6
    else if starts_with token (codes "pub")
    then some 7
    else if is_one_of rust.statement token
    then some 8
    else if starts_with token (codes "[cfg")
    then some 10
    else none

abbrev pub lowest_priority : ℕ
lowest_priority = 1000

abbrev pub find_map : (Text → Option ℕ) → List Text → Option ℕ
find_map f [] = none
find_map f (t ∷ ts) = elim (f t) [ none ↦ find_map f ts | some n ↦ some n ]

-- The weigher of a file extension.
unfoldable pub weigher : Text → Option (Text → Option ℕ)
unfolding keyword_priority rust_keyword_priority
weigher file_ext =
    if text_eq file_ext (codes "erl")
    then some (keyword_priority erlang)
    else if text_eq file_ext (codes "go")
    then some (keyword_priority golang)
    else if text_eq file_ext (codes "rs")
    then some rust_keyword_priority
    else if text_eq file_ext (codes "vim")
    then some (keyword_priority viml)
    else none

unfoldable pub calculate_pattern_priority : Text → Text → Option ℕ
unfolding weigher split_whitespace
calculate_pattern_priority pattern file_ext =
    weigher file_ext >>= λ f. find_map f (take 3 (split_whitespace pattern))

-- `char::is_ascii_whitespace`
abbrev pub is_ascii_whitespace : ℕ → Bool
is_ascii_whitespace c = c == 9 || c == 10 || c == 12 || c == 13 || c == 32

abbrev pub flush_word : Text → List Text
flush_word [] = []
flush_word (c ∷ cs) = (c ∷ cs) ∷ []

-- `text.split_ascii_whitespace()`
unfoldable pub split_ascii_whitespace : Text → Text → List Text
split_ascii_whitespace word [] = flush_word word
split_ascii_whitespace word (c ∷ cs) = elim (is_ascii_whitespace c) [
  | true ↦ flush_word word ++ split_ascii_whitespace [] cs
  | false ↦ split_ascii_whitespace (word ++ c ∷ []) cs
]

-- A `pub` item whose second word is `use`.
unfoldable pub is_pub_use : Text → Bool
unfolding split_ascii_whitespace
is_pub_use pattern = elim (last (take 2 (split_ascii_whitespace [] pattern))) [
  | none ↦ false
  | some e ↦ text_eq e (codes "use")
]

unfoldable pub resolve_reference_kind : Text → Text → Text × ℕ
unfolding trim_start starts_with is_pub_use
resolve_reference_kind pattern file_ext =
    let trimmed = trim_start pattern in
    if text_eq file_ext (codes "rs")
    then (if starts_with trimmed (codes "use ")
          || (starts_with trimmed (codes "pub") && is_pub_use trimmed)
        then (codes "use", 1)
        else if starts_with trimmed (codes "impl")
        then (codes "impl", 2)
        else (codes "refs", 100))
    else (codes "refs", 100)

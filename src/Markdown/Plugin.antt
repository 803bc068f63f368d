-- ===== src/Markdown/Plugin.antt =====
-- crates/maple_core/src/stdio_server/plugin/markdown.rs: the actions on the table of contents. The buffer
-- and its file are lines; what Vim does to lines is a parameter, and what it answers an argument.
pub mod Stale
pub mod Refresh
use mathlib.Core.List
use vim_clap.Common.{
  ℕ, ◌+◌, ◌-◌, Bool, true, false, Option, none, some, List, [], ◌∷◌, map, if◌then◌else◌, is_empty,
}
use vim_clap.Text.{Text}
use vim_clap.Markdown.{Libraries, generate_toc, find_toc_range}

-- `deletebufline(first, last)`, which can fail, and `append(lnum, text)`.
pub record VimLines : Type 0 where
  pub deletebufline : ℕ → ℕ → List Text → Option (List Text)
  pub append : ℕ → List Text → List Text → List Text

pub record Document : Type 0 where
  pub buffer : List Text
  pub file : List (Option Text)

-- `reads`: the path is known and its file can be read; `executes`: Vim executes what it is told. The outer
-- `none` is an error.
pub record Answers : Type 0 where
  pub reads : Bool
  pub executes : Bool
  pub curlnum : Option ℕ
  pub shiftwidth : Option ℕ
  pub prev_line : Option (Option Text)

-- The document, and whether the action succeeded.
abbrev pub Result : Type 0
Result = Document × Bool

abbrev pub is_blank : Option Text → Bool
is_blank none = false
is_blank (some line) = is_empty line

abbrev pub with_buffer : Document → Option (List Text) → Result
with_buffer d none = (d, false)
with_buffer d (some buffer) = (record d { buffer = buffer }, true)

module _ (vim : VimLines) (lib : Libraries) (a : Answers) where
  abbrev pub append_and_write : ℕ → List Text → Document → Document
  append_and_write lnum text d =
      let buffer = vim.append lnum text d.buffer in
      record { buffer = buffer; file = map (λ l. some l) buffer }

  abbrev pub exec_append : ℕ → List Text → Document → Result
  exec_append lnum text d = if a.executes then (append_and_write lnum text d, true) else (d, false)

  abbrev pub append_rest : ℕ → List Text → Document → Option (List Text) → Result
  append_rest start toc d none = (d, false)
  append_rest start toc d (some buffer) = exec_append start toc (record d { buffer = buffer })

  abbrev pub replace_toc : ℕ → ℕ → Option ℕ → Document → Result
  replace_toc start end none d = (d, false)
  replace_toc start end (some shiftwidth) d =
      append_rest start (generate_toc lib d.file (start + 1) shiftwidth) d
        (vim.deletebufline (start + 1) (end + 1) d.buffer)

  abbrev pub update_range : Option (ℕ × ℕ) → Document → Result
  update_range none d = (d, true)
  update_range (some (start, end)) d = replace_toc start end a.shiftwidth d

  unfoldable pub update_toc : Document → Result
  unfolding generate_toc find_toc_range
  update_toc d = if a.reads then update_range (find_toc_range d.file) d else (d, false)

  abbrev pub delete_range : Option (ℕ × ℕ) → Document → Result
  delete_range none d = (d, true)
  delete_range (some (start, end)) d =
      with_buffer d (vim.deletebufline (start + 1) (end + 1) d.buffer)

  -- `MarkdownAction::DeleteToc`
  unfoldable pub delete_toc : Document → Result
  unfolding find_toc_range
  delete_toc d = if a.reads then delete_range (find_toc_range d.file) d else (d, false)

  abbrev pub insert_toc : ℕ → List Text → Option (Option Text) → Document → Result
  insert_toc curlnum toc none d = (d, false)
  insert_toc curlnum toc (some prev_line) d =
      exec_append (curlnum - 1) (if is_blank prev_line then toc else [] ∷ toc) d

  abbrev pub generate_at : Option ℕ → Option ℕ → Document → Result
  generate_at none shiftwidth d = (d, false)
  generate_at (some curlnum) none d = (d, false)
  generate_at (some curlnum) (some shiftwidth) d =
      insert_toc curlnum (generate_toc lib d.file curlnum shiftwidth) a.prev_line d

  -- `MarkdownAction::GenerateToc`
  unfoldable pub generate : Document → Result
  unfolding generate_toc
  generate d = if a.reads then generate_at a.curlnum a.shiftwidth d else (d, false)

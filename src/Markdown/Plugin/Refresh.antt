-- ===== src/Markdown/Plugin/Refresh.antt =====
-- The table after an update and after a deletion: crates/maple_core/src/stdio_server/plugin/markdown.rs with
-- crates/maple_markdown/src/toc.rs.
use mathlib.Core.List.{append-nil, append_assoc}
use vim_clap.Common.{
  ℕ, ◌+◌, ◌-◌, ◌≡◌, refl, ap, sym, ◌∙◌, true, false, Option, some, List, [], ◌∷◌, ◌++◌, map, any,
  length, is_empty, arith, Bool-cases, inl, inr, if◌then◌else◌,
}
use vim_clap.Text.{trim, Text, trim_end, trim_start}
use vim_clap.Markdown.{Libraries, parse_toc, toc_start, toc_end, generate_toc}
use vim_clap.Markdown.Range.{is_marker, with_indent}
use vim_clap.Markdown.Plugin.{
  is_blank, VimLines, Document, Answers, update_toc, delete_toc, generate,
}
use vim_clap.Markdown.Plugin.Stale.{stale, generate-fresh, found, table}

-- What Vim documents of the lines that are deleted and appended; a buffer keeps a line at least.
pub record IsVim (vim : VimLines) : Type 0 where
  pub deletes :
      (before after : List Text) (first : Text) (rest : List Text)
      → is_empty (before ++ after) ≡ false
      → vim.deletebufline
          (length before + 1)
          (length before + length (first ∷ rest))
          (before ++ (first ∷ rest ++ after))
        ≡ some (before ++ after)
  pub appends :
      (before text after : List Text)
      → vim.append (length before) text (before ++ after) ≡ before ++ (text ++ after)

-- A document that is saved.
abbrev pub saved : List Text → Document
saved buffer = record { buffer = buffer; file = map (λ l. some l) buffer }

module _ (vim : VimLines) (v : IsVim vim) (lib : Libraries) (a : Answers) (before after : List Text)
    (old : List (Option Text)) (line shiftwidth new_shiftwidth : ℕ) where
  stale-deleted :
      is_empty (before ++ after) ≡ false
      → vim.deletebufline
          (length before + 1)
          (length before
            + length (stale lib before after old line shiftwidth new_shiftwidth)
            - 1
            + 1)
          (before ++ (stale lib before after old line shiftwidth new_shiftwidth ++ after))
        ≡ some (before ++ after)
  unfolding generate_toc
  stale-deleted h =
      let toc = stale lib before after old line shiftwidth new_shiftwidth in
      ap (λ n. vim.deletebufline (length before + 1) n (before ++ (toc ++ after))) (omega arith)
      ∙ v.deletes before after toc_start
          ([] ∷ parse_toc lib old (with_indent shiftwidth) line ++ [] ∷ toc_end ∷ []) h

  -- Where a saved buffer holds a table of contents that was generated, from whatever file, at whatever line and
  -- with whatever shift width, no line in front of it being, but for white space around it, one of the two
  -- comments that mark a table, and some line standing outside of it: if nothing fails, the update puts the
  -- table of the headings below, those outside of code blocks, in the place of just the stale one, and saves
  -- the buffer. Vim deletes and appends lines as it documents.
  pub update_toc-generate_toc :
      any is_marker before ≡ false
      → is_empty (before ++ after) ≡ false
      → a.reads ≡ true
      → a.executes ≡ true
      → a.shiftwidth ≡ some new_shiftwidth
      → update_toc vim lib a (saved (before ++ (generate_toc lib old line shiftwidth ++ after)))
        ≡ (saved (before ++ (table lib new_shiftwidth after ++ after)), true)
  unfolding update_toc
  update_toc-generate_toc m e r x s =
      rw
        (
          r,
          found lib before after old line shiftwidth new_shiftwidth m,
          s,
          stale-deleted e,
          generate-fresh lib before after old line shiftwidth new_shiftwidth,
          x,
          v.appends before (table lib new_shiftwidth after) after,
        )
        refl

  stale-delete_toc :
      any is_marker before ≡ false
      → is_empty (before ++ after) ≡ false
      → a.reads ≡ true
      → (delete_toc vim lib a
          (saved (before ++ (generate_toc lib old line shiftwidth ++ after)))).0.buffer
        ≡ before ++ after
  unfolding delete_toc
  stale-delete_toc m e r =
      rw (r, found lib before after old line shiftwidth new_shiftwidth m, stale-deleted e) refl

-- What `generate` puts in front of the table.
abbrev pub gap : Option Text → List Text
gap prev_line = if is_blank prev_line then [] else [] ∷ []

is_empty-append :
    (before after : List Text) → is_empty after ≡ false → is_empty (before ++ after) ≡ false
is_empty-append [] after h = h
is_empty-append (b ∷ before) after h = refl

no_marker_blank :
    (before : List Text) → any is_marker before ≡ false → any is_marker (before ++ [] ∷ []) ≡ false
unfolding trim trim_start trim_end
no_marker_blank [] h = refl
no_marker_blank (b ∷ before) h = ground (arith, no_marker_blank before)

module _ (vim : VimLines) (v : IsVim vim) (lib : Libraries) (a deleting : Answers)
    (before after : List Text) (shiftwidth : ℕ) (prev_line : Option Text) where
  abbrev inserted : List Text
  inserted = generate_toc lib (map (λ l. some l) (before ++ after)) (length before + 1) shiftwidth

  generate-inserts :
      a.reads ≡ true
      → a.executes ≡ true
      → a.curlnum ≡ some (length before + 1)
      → a.shiftwidth ≡ some shiftwidth
      → a.prev_line ≡ some prev_line
      → generate vim lib a (saved (before ++ after))
        ≡ (saved ((before ++ gap prev_line) ++ (inserted ++ after)), true)
  unfolding generate
  generate-inserts r x c s p =
      let at : length before + 1 - 1 ≡ length before = omega arith in
      elim (Bool-cases (is_blank prev_line)) [
        | inl e ↦
            rw (r, c, s, p, e, x, at, v.appends before inserted after)
              (ap (λ l. (saved (l ++ (inserted ++ after)), true)) (sym (append-nil before)))
        | inr e ↦
            rw (r, c, s, p, e, x, at, v.appends before ([] ∷ inserted) after)
              (ap (λ l. (saved l, true)) (sym (append_assoc before ([] ∷ []) (inserted ++ after))))
      ]

  gap-marker : any is_marker before ≡ false → any is_marker (before ++ gap prev_line) ≡ false
  gap-marker m = elim (Bool-cases (is_blank prev_line)) [
    | inl e ↦ rw e (ap (any is_marker) (append-nil before) ∙ m)
    | inr e ↦ rw e (no_marker_blank before m)
  ]

  -- Where the lines in front of the cursor are, but for white space around them, none of the two comments
  -- that mark a table, the deletion of the table that was generated at the cursor of a saved buffer, if
  -- nothing fails, gives the buffer before, with an empty line at the cursor if the line in front of it is
  -- not empty. Vim deletes and appends lines as it documents.
  pub delete_toc-generate :
      any is_marker before ≡ false
      → is_empty after ≡ false
      → a.reads ≡ true
      → a.executes ≡ true
      → a.curlnum ≡ some (length before + 1)
      → a.shiftwidth ≡ some shiftwidth
      → a.prev_line ≡ some prev_line
      → deleting.reads ≡ true
      → (delete_toc vim lib deleting (generate vim lib a (saved (before ++ after))).0).0.buffer
        ≡ before ++ (gap prev_line ++ after)
  delete_toc-generate m e r x c s p d =
      ap (λ r. (delete_toc vim lib deleting r.0).0.buffer) (generate-inserts r x c s p)
      ∙ stale-delete_toc vim v lib deleting (before ++ gap prev_line) after
          (map (λ l. some l) (before ++ after)) (length before + 1) shiftwidth 0 (gap-marker m)
          (is_empty-append (before ++ gap prev_line) after e) d
      ∙ append_assoc before (gap prev_line) after

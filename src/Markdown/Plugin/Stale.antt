-- ===== src/Markdown/Plugin/Stale.antt =====
-- A table of contents that was generated once, in the file as it is now: crates/maple_markdown/src/toc.rs.
use mathlib.Core.List.{append_assoc, map-append, reverse, reverse-append}
use vim_clap.Common.{
  ◌⊎◌, ℕ, zero, suc, ◌+◌, ◌-◌, ◌≡◌, refl, ap, ◌∙◌, Bool, false, ◌||◌, Option, none, some, List, [],
  ◌∷◌, ◌++◌, map, any, drop, length, arith, Bool-cases, inl, inr, ◌==◌,
}
use vim_clap.Text.{Text, codes, trim_end, trim_start, starts_with, is_whitespace}
use vim_clap.Markdown.{
  Libraries, TocConfig, spaces, parse_heading, toc_lines, outside_code, readable, parse_toc,
  toc_start, toc_end, generate_toc, find_toc_range,
}
use vim_clap.Markdown.Range.{is_marker, with_indent, toc_lines-any, find_toc_range-generate_toc}
use vim_clap.Markdown.Fences.{is_fence, outside-before}

-- A line that can be a heading or a fence.
abbrev is_active : Text → Bool
is_active [] = false
is_active (c ∷ cs) = c == b'#' || c == b'`' || c == b'~'

active-fence : (t : Text) → is_active t ≡ false → is_fence t ≡ false
unfolding starts_with
active-fence [] h = refl
active-fence (c ∷ cs) h = ground arith

-- What is left of the end begins with the same char, or nothing is left.
trim_start-any_last :
    (xs : Text) (c : ℕ)
    → (trim_start (xs ++ c ∷ []) ≡ []) ⊎ ((ys : Text) × (trim_start (xs ++ c ∷ []) ≡ ys ++ c ∷ []))
unfolding trim_start
trim_start-any_last [] c = elim (Bool-cases (is_whitespace c)) [
  | inl e ↦ inl (rw e refl)
  | inr e ↦ inr ([], rw e refl)
]
trim_start-any_last (x ∷ xs) c = elim (Bool-cases (is_whitespace x)) [
  | inl e ↦ elim (trim_start-any_last xs c) [
    | inl p ↦ inl (rw e p)
    | inr (ys, p) ↦ inr (ys, rw e p)
  ]
  | inr e ↦ inr (x ∷ xs, rw e refl)
]

trimmed-hash :
    (c : ℕ) (cs : Text) → (c == b'#') ≡ false → starts_with (trim_end (c ∷ cs)) (codes "#") ≡ false
unfolding trim_end starts_with
trimmed-hash c cs h = elim (trim_start-any_last (reverse cs) c) [
  | inl p ↦
      ap (λ l. starts_with (reverse l) (codes "#")) (ap trim_start (reverse-append (c ∷ []) cs) ∙ p)
  | inr (ys, p) ↦
      ap (λ l. starts_with l (codes "#"))
        (ap (λ l. reverse (trim_start l)) (reverse-append (c ∷ []) cs)
          ∙ ap reverse p
          ∙ reverse-append ys (c ∷ []))
      ∙ ground arith
]

active-heading : (t : Text) → is_active t ≡ false → parse_heading t ≡ none
unfolding parse_heading trim_end starts_with
active-heading [] h = refl
active-heading (c ∷ cs) h = rw (trimmed-hash c cs (ground arith)) refl

any-fence : (ls : List Text) → any is_active ls ≡ false → any is_fence ls ≡ false
any-fence [] h = refl
any-fence (l ∷ ls) h = ground (arith, active-fence l, any-fence ls)

module _ (lib : Libraries) (config : TocConfig) where
  no_headings :
      (ls rest : List Text)
      → any is_active ls ≡ false
      → toc_lines lib config (ls ++ rest) ≡ toc_lines lib config rest
  unfolding toc_lines
  no_headings [] rest h = refl
  no_headings (l ∷ ls) rest h =
      rw (toc_lines, active-heading l (ground arith)) (no_headings ls rest (ground arith))

  abbrev entries : List Text → List Text
  entries ls = toc_lines lib config (outside_code none ls)

  entries-passed :
      (ls rest : List Text) → any is_active ls ≡ false → entries (ls ++ rest) ≡ entries rest
  entries-passed ls rest h =
      ap (toc_lines lib config) (outside-before ls rest (any-fence ls h))
      ∙ no_headings ls (outside_code none rest) h

readable-drop : (n : ℕ) (ls : List Text) → readable (drop n (map (λ l. some l) ls)) ≡ drop n ls
readable-drop zero [] = refl
readable-drop (suc n) [] = refl
readable-drop zero (l ∷ ls) = ap (λ x. l ∷ x) (readable-drop zero ls)
readable-drop (suc n) (l ∷ ls) = readable-drop n ls

drop-past :
    (before rest : List Text) (l : Text) → drop (length before + 1) (before ++ l ∷ rest) ≡ rest
drop-past [] rest l = refl
drop-past (b ∷ before) rest l =
    let e : length (b ∷ before) + 1 ≡ suc (length before + 1) = omega arith in
    ap (λ n. drop n (b ∷ before ++ l ∷ rest)) e ∙ drop-past before rest l

star-active : (n : ℕ) (rest : Text) → is_active (spaces n ++ b'*' ∷ rest) ≡ false
star-active zero rest = refl
star-active (suc n) rest = refl

-- The table with the headings of the lines `after`.
abbrev pub table : Libraries → ℕ → List Text → List Text
table lib shiftwidth after =
    toc_start ∷ [] ∷ toc_lines lib (with_indent shiftwidth) (outside_code none after)
    ++ [] ∷ toc_end ∷ []

module _ (lib : Libraries) (before after : List Text) (old : List (Option Text))
    (line shiftwidth new_shiftwidth : ℕ) where
  abbrev pub stale : List Text
  stale = generate_toc lib old line shiftwidth

  -- The lines of the stale table are neither headings nor fences.
  entries-stale :
      entries lib
        (with_indent new_shiftwidth)
        (drop (length before + 1) (before ++ (stale ++ after)))
      ≡ entries lib (with_indent new_shiftwidth) after
  unfolding generate_toc parse_toc
  entries-stale =
      let config = with_indent new_shiftwidth in
      let toc = parse_toc lib old (with_indent shiftwidth) line in
      ap (entries lib config)
        (drop-past before ([] ∷ (toc ++ [] ∷ toc_end ∷ []) ++ after) toc_start)
      ∙ entries-passed lib config ([] ∷ []) ((toc ++ [] ∷ toc_end ∷ []) ++ after) refl
      ∙ ap (entries lib config) (append_assoc toc ([] ∷ toc_end ∷ []) after)
      ∙ entries-passed lib config toc ([] ∷ toc_end ∷ [] ++ after) (
          toc_lines-any lib shiftwidth is_active star-active
            (outside_code none (readable (drop line old))))
      ∙ entries-passed lib config ([] ∷ toc_end ∷ []) after refl

  pub generate-fresh :
      generate_toc lib
        (map (λ l. some l) (before ++ (stale ++ after)))
        (length before + 1)
        new_shiftwidth
      ≡ table lib new_shiftwidth after
  unfolding generate_toc parse_toc
  generate-fresh =
      ap (λ ls. toc_start ∷ [] ∷ ls ++ [] ∷ toc_end ∷ [])
        (ap (entries lib (with_indent new_shiftwidth))
            (readable-drop (length before + 1) (before ++ (stale ++ after)))
          ∙ entries-stale)

  pub found :
      any is_marker before ≡ false
      → find_toc_range (map (λ l. some l) (before ++ (stale ++ after)))
        ≡ some (length before, length before + length stale - 1)
  found h =
      ap find_toc_range (
        map-append (λ l. some l) before (stale ++ after)
        ∙ ap (λ x. map (λ l. some l) before ++ x) (map-append (λ l. some l) stale after))
      ∙ find_toc_range-generate_toc lib old line shiftwidth before (map (λ l. some l) after) h

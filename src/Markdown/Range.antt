-- ===== src/Markdown/Range.antt =====
-- The table of contents that is written is the one that is found: `generate_toc` and `find_toc_range` of
-- crates/maple_markdown/src/toc.rs.
use mathlib.Core.Option
use mathlib.Core.List.{map-append, append_assoc, reverse, reverse-append}
use vim_clap.Common.Options.{◌>>=◌}
use vim_clap.Common.{
  drop, length, length-append, arith, ◌+◌, map, ◌-◌, Option-cases, ◌*◌, none, any, some, List,
  Option, ◌||◌, ℕ, zero, suc, ◌≡◌, refl, ap, ◌∙◌, Bool, false, [], ◌∷◌, ◌++◌, Bool-cases, inl, inr,
}
use vim_clap.Text.{codes, Text, text_eq, trim, trim_start, trim_end, is_whitespace}
use vim_clap.Markdown.{
  readable, outside_code, parse_toc, in_depth, parse_heading, linked, toc_lines, Heading,
  generate_toc, default_config, format, TocConfig, Libraries, find_toc_range, find_range_from,
  spaces, toc_start, toc_end,
}

-- A line that `find_toc_range` passes over.
abbrev pub is_marker : Text → Bool
is_marker line = text_eq (trim line) toc_start || text_eq (trim line) toc_end

-- Trimming the start leaves the last char, if it is no white space.
trim_start-last :
    (xs : Text) (c : ℕ)
    → is_whitespace c ≡ false
    → (ys : Text) × (trim_start (xs ++ c ∷ []) ≡ ys ++ c ∷ [])
unfolding trim_start
trim_start-last [] c h = ([], rw h refl)
trim_start-last (x ∷ xs) c h = elim (Bool-cases (is_whitespace x)) [
  | inl e ↦ let (ys, p) = trim_start-last xs c h in (ys, rw e p)
  | inr e ↦ (x ∷ xs, rw e refl)
]

trim_end-first :
    (c : ℕ) (cs : Text) → is_whitespace c ≡ false → (ys : Text) × (trim_end (c ∷ cs) ≡ c ∷ ys)
unfolding trim_end
trim_end-first c cs h =
    let (ys, p) = trim_start-last (reverse cs) c h in
    (
      reverse ys,
      ap (λ l. reverse (trim_start l)) (reverse-append (c ∷ []) cs)
          ∙ ap reverse p
          ∙ reverse-append ys (c ∷ []),
    )

trim_start-spaces : (n : ℕ) (t : Text) → trim_start (spaces n ++ t) ≡ trim_start t
unfolding trim_start is_whitespace
trim_start-spaces zero t = refl
trim_start-spaces (suc n) t = trim_start-spaces n t

-- A text that begins with a star after spaces.
star-is_marker : (n : ℕ) (rest : Text) → is_marker (spaces n ++ b'*' ∷ rest) ≡ false
unfolding trim trim_start is_whitespace
star-is_marker n rest =
    let (ys, p) = trim_end-first b'*' rest refl in
    let trimmed : trim (spaces n ++ b'*' ∷ rest) ≡ b'*' ∷ ys =
      ap trim_end (trim_start-spaces n (b'*' ∷ rest)) ∙ p in
    ap (λ t. text_eq t toc_start || text_eq t toc_end) trimmed

record HasStar (t : Text) : Type 0 where
  n : ℕ
  rest : Text
  shape : t ≡ spaces n ++ b'*' ∷ rest

star-append : (t u : Text) → HasStar t → HasStar (t ++ u)
star-append t u h = record {
  n = h.n;
  rest = h.rest ++ u;
  shape = ap (λ x. x ++ u) h.shape ∙ append_assoc (spaces h.n) (b'*' ∷ h.rest) u;
}

abbrev HasStarResult : Option Text → Type 0
HasStarResult none = Unit
HasStarResult (some t) = HasStar t

abbrev pub with_indent : ℕ → TocConfig
with_indent n = record default_config { indent = n }

module _ (lib : Libraries) (indent : ℕ) where
  abbrev before_title : Heading → Text
  before_title h = spaces (indent * (h.depth - 1)) ++ codes "*" ++ spaces (indent - 1)

  before_title-HasStar : (h : Heading) → HasStar (before_title h)
  before_title-HasStar h =
      star-append (spaces (indent * (h.depth - 1)) ++ codes "*") (spaces (indent - 1))
        (record { n = indent * (h.depth - 1); rest = []; shape = refl })

  linked-HasStar : (t title title_link : Text) → HasStar t → HasStar (linked lib t title title_link)
  linked-HasStar t title title_link h =
      star-append _ _ (star-append _ _ (star-append _ _ (star-append _ _ (star-append _ _ h))))

  group-HasStar :
      (h : Heading) (group : Option Text) (title_link : Text)
      → HasStarResult (Option.map (λ title. linked lib (before_title h) title title_link) group)
  group-HasStar h none title_link = tt
  group-HasStar h (some title) title_link =
      linked-HasStar (before_title h) title title_link (before_title-HasStar h)

  format-HasStar : (h : Heading) → HasStarResult (format lib (with_indent indent) h)
  unfolding format
  format-HasStar h = elim (Bool-cases (in_depth (with_indent indent) h.depth)) [
    | inr e ↦ rw e tt
    | inl e ↦ rw e (elim (Option-cases (lib.link_title h.title)) [
      | inl f ↦ rw f (
          linked-HasStar (before_title h) h.title (lib.replace_backticks h.title)
            (before_title-HasStar h))
      | inr (group, f) ↦ rw f (group-HasStar h group (lib.replace_backticks h.title))
    ])
  ]

  line-HasStar :
      (line : Text) → HasStarResult (parse_heading line >>= format lib (with_indent indent))
  line-HasStar line = elim (Option-cases (parse_heading line)) [
    | inl e ↦ rw e tt
    | inr (h, e) ↦ rw e (format-HasStar h)
  ]

  -- No entry has a property that no text with a star after spaces has.
  module _ (p : Text → Bool)
      (star : (n : ℕ) (rest : Text) → p (spaces n ++ b'*' ∷ rest) ≡ false) where
    kept-any :
        (o : Option Text) (ls : List Text)
        → HasStarResult o
        → any p ls ≡ false
        → any p (elim o [ none ↦ ls | some t ↦ t ∷ ls ]) ≡ false
    kept-any none ls h k = k
    kept-any (some t) ls h k =
        let e : p t ≡ false = ap p h.shape ∙ star h.n h.rest in ap (λ b. b || any p ls) e ∙ k

    pub toc_lines-any : (ls : List Text) → any p (toc_lines lib (with_indent indent) ls) ≡ false
    unfolding toc_lines
    toc_lines-any [] = refl
    toc_lines-any (line ∷ ls) =
        kept-any (parse_heading line >>= format lib (with_indent indent)) _ (line-HasStar line)
          (toc_lines-any ls)

-- The search passes over lines that are no markers.
find_range_from-skip :
    (start idx : ℕ) (ls : List Text) (rest : List (Option Text))
    → any is_marker ls ≡ false
    → find_range_from start idx (map (λ l. some l) ls ++ rest)
      ≡ find_range_from start (idx + length ls) rest
unfolding find_range_from
find_range_from-skip start idx [] rest h = ap (λ n. find_range_from start n rest) (omega arith)
find_range_from-skip start idx (l ∷ ls) rest h = elim (Bool-cases (text_eq (trim l) toc_start)) [
  | inl e ↦ ground arith
  | inr e ↦ elim (Bool-cases (text_eq (trim l) toc_end)) [
    | inl f ↦ ground arith
    | inr f ↦
        rw (e, f)
          (find_range_from-skip start (suc idx) ls rest (ground arith)
            ∙ ap (λ n. find_range_from start n rest) (omega arith))
  ]
]

pair-cong : {a b c d : ℕ} → a ≡ b → c ≡ d → ◌≡◌ {A = Option (ℕ × ℕ)} (some (a, c)) (some (b, d))
pair-cong h k = cc

find_range_from-generated :
    (start idx : ℕ) (inner : List Text) (rest : List (Option Text))
    → any is_marker inner ≡ false
    → find_range_from start idx
        (some toc_start ∷ some [] ∷ map (λ l. some l) inner ++ (some [] ∷ some toc_end ∷ rest))
      ≡ some (idx, idx + length inner + 3)
unfolding find_range_from trim trim_start trim_end is_whitespace
find_range_from-generated start idx inner rest h =
    find_range_from-skip idx (suc (suc idx)) inner (some [] ∷ some toc_end ∷ rest) h
    ∙ ap (λ n. some (idx, n)) (omega arith)

-- The table of contents that is generated for any file, with any shift width, is found again where it
-- was put, from its first line to its last, if no line before it is, but for white space around it, one
-- of the two comments that mark such a table.
pub find_toc_range-generate_toc :
    (lib : Libraries) (file : List (Option Text)) (line_start shiftwidth : ℕ) (before : List Text)
    (after : List (Option Text))
    → any is_marker before ≡ false
    → find_toc_range (
        map (λ l. some l) before
        ++ (map (λ l. some l) (generate_toc lib file line_start shiftwidth) ++ after))
      ≡ some
          (length before, length before + length (generate_toc lib file line_start shiftwidth) - 1)
unfolding find_toc_range generate_toc parse_toc
find_toc_range-generate_toc lib file line_start shiftwidth before after h =
    let toc = parse_toc lib file (with_indent shiftwidth) line_start in
    find_range_from-skip 0 0 before _ h
    ∙ ap (λ ls. find_range_from 0 (0 + length before) (some toc_start ∷ some [] ∷ ls))
        (ap (λ ls. ls ++ after) (map-append (λ l. some l) toc ([] ∷ toc_end ∷ []))
          ∙ append_assoc (map (λ l. some l) toc) (some [] ∷ some toc_end ∷ []) after)
    ∙ find_range_from-generated 0 (0 + length before) toc after (
        toc_lines-any lib shiftwidth is_marker star-is_marker
          (outside_code none (readable (drop line_start file))))
    ∙ pair-cong (omega arith) (omega (arith, length-append toc ([] ∷ toc_end ∷ [])))

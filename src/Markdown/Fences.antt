-- ===== src/Markdown/Fences.antt =====
-- The code blocks of a file: `parse_toc` of crates/maple_markdown/src/toc.rs.
use mathlib.Core.List.{append-nil}
use vim_clap.Common.{
  inr, inl, Bool-cases, ◌≡◌, refl, ap, ◌∙◌, true, false, ◌||◌, Bool, none, some, List, [], ◌∷◌,
  ◌++◌, any, arith, if◌then◌else◌,
}
use vim_clap.Text.{Text, starts_with}
use vim_clap.Markdown.{CodeBlockStart, backticks, tides, fence, outside_code}

abbrev pub has_fence : CodeBlockStart → Text → Bool
has_fence block line = starts_with line (fence block)

abbrev pub is_fence : Text → Bool
is_fence line = has_fence backticks line || has_fence tides line

pub outside-before :
    (before rest : List Text)
    → any is_fence before ≡ false
    → outside_code none (before ++ rest) ≡ before ++ outside_code none rest
unfolding outside_code
outside-before [] rest h = refl
outside-before (line ∷ before) rest h = ground (arith, outside-before before rest)

inside-block :
    (block : CodeBlockStart) (code after : List Text) (closing : Text)
    → any (has_fence block) code ≡ false
    → has_fence block closing ≡ true
    → outside_code (some block) (code ++ closing ∷ after) ≡ outside_code none after
unfolding outside_code
inside-block block [] after closing h c =
    ap (λ b. outside_code (if b then none else some block) after) c
inside-block block (line ∷ code) after closing h c =
    elim (Bool-cases (starts_with line (fence block))) [
      | inl e ↦ ground arith
      | inr e ↦
          ap (λ b. outside_code (if b then none else some block) (code ++ closing ∷ after)) e
          ∙ inside-block block code after closing (ground arith) c
    ]

unclosed-block :
    (block : CodeBlockStart) (code : List Text)
    → any (has_fence block) code ≡ false
    → outside_code (some block) code ≡ []
unfolding outside_code
unclosed-block block [] h = refl
unclosed-block block (line ∷ code) h = elim (Bool-cases (starts_with line (fence block))) [
  | inl e ↦ ground arith
  | inr e ↦
      ap (λ b. outside_code (if b then none else some block) code) e
      ∙ unclosed-block block code (ground arith)
]

-- A line with three backticks does not begin with a tilde.
one_fence : (line : Text) → has_fence tides line ≡ true → has_fence backticks line ≡ false
unfolding starts_with
one_fence [] h = refl
one_fence (c ∷ cs) h = ground arith

opened-block :
    (block : CodeBlockStart) (opening : Text) (rest : List Text)
    → has_fence block opening ≡ true
    → outside_code none (opening ∷ rest) ≡ outside_code (some block) rest
unfolding outside_code
opened-block backticks opening rest h = rw h refl
opened-block tides opening rest h = rw (one_fence opening h, h) refl

-- A code block counts for nothing, whichever fence it has and whatever lines it holds that do not begin with
-- this fence, lines that look like headings and the other fence among them: what is left are the lines
-- before it and what is left of those after it; and a block that is never closed hides all lines after it.
pub outside_code-block :
    (block : CodeBlockStart) (before code after : List Text) (opening closing : Text)
    → any is_fence before ≡ false
    → has_fence block opening ≡ true
    → any (has_fence block) code ≡ false
    → has_fence block closing ≡ true
    → (outside_code none (before ++ (opening ∷ (code ++ closing ∷ after)))
        ≡ before ++ outside_code none after)
      × (outside_code none (before ++ opening ∷ code) ≡ before)
outside_code-block block before code after opening closing b o c e = (
  outside-before before (opening ∷ (code ++ closing ∷ after)) b
      ∙ ap (λ l. before ++ l)
          (opened-block block opening (code ++ closing ∷ after) o
            ∙ inside-block block code after closing c e),
  outside-before before (opening ∷ code) b
      ∙ ap (λ l. before ++ l) (opened-block block opening code o ∙ unclosed-block block code c)
      ∙ append-nil before,
)

-- ===== src/Tests/Documents.antt =====
-- The table of contents of a small file.
use vim_clap.Common.{◌≡◌, refl, true, false, Option, none, some, List, [], ◌∷◌, ◌++◌, any}
use vim_clap.Text.{Text, trim, starts_with, codes}
use vim_clap.Markdown.{Libraries, tides, outside_code, generate_toc}
use vim_clap.Markdown.Fences.{is_fence, has_fence, outside_code-block}
use vim_clap.Markdown.Range.{is_marker}

abbrev pub lib : Libraries
lib = record {
  unicode = record { to_lowercase = λ t. t; is_uppercase = λ c. false };
  percent_encode = λ t. t;
  link_title = λ t. none;
  replace_backticks = λ t. t;
}

abbrev pub file : List (Option Text)
file = some (codes "# title") ∷ some (codes "## one") ∷ some (codes "### two") ∷ []

two_entries :
    generate_toc lib file 0 2
    ≡ codes "<!-- clap-markdown-toc -->"
      ∷ []
      ∷ codes "* [one](#one)"
      ∷ codes "  * [two](#two)"
      ∷ []
      ∷ codes "<!-- /clap-markdown-toc -->"
      ∷ []
unfolding generate_toc
two_entries = refl

intro_marker : any is_marker (codes "intro" ∷ []) ≡ false
unfolding trim
intro_marker = refl

fences :
    (any is_fence (codes "a" ∷ []) ≡ false)
    × (has_fence tides (codes "~~~sh") ≡ true)
    × (any (has_fence tides) (codes "# b" ∷ codes "```" ∷ []) ≡ false)
    × (has_fence tides (codes "~~~") ≡ true)
unfolding starts_with
fences = (refl, refl, refl, refl)

outside_code-block_example :
    (outside_code none (
        (codes "a" ∷ [])
        ++ (codes "~~~sh" ∷ ((codes "# b" ∷ codes "```" ∷ []) ++ codes "~~~" ∷ codes "# c" ∷ [])))
      ≡ (codes "a" ∷ []) ++ outside_code none (codes "# c" ∷ []))
    × (outside_code none ((codes "a" ∷ []) ++ codes "~~~sh" ∷ codes "# b" ∷ codes "```" ∷ [])
        ≡ codes "a" ∷ [])
outside_code-block_example =
    outside_code-block tides (codes "a" ∷ []) (codes "# b" ∷ codes "```" ∷ []) (codes "# c" ∷ [])
      (codes "~~~sh") (codes "~~~") fences.0 fences.1 fences.2 fences.3

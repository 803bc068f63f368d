-- ===== src/Tests/Tables.antt =====
-- The table of contents of a buffer is generated, brought up to date and deleted.
use vim_clap.Common.{
  suc, ◌+◌, ◌-◌, ◌≡◌, refl, ap, ◌∙◌, true, false, some, List, [], ◌∷◌, ◌++◌, length, any, take,
  drop, arith,
}
use vim_clap.Text.{Text, trim, codes}
use vim_clap.Markdown.{generate_toc}
use vim_clap.Markdown.Range.{is_marker}
use vim_clap.Markdown.Plugin.{VimLines, Answers, update_toc, delete_toc, generate}
use vim_clap.Markdown.Plugin.Stale.{table}
use vim_clap.Markdown.Plugin.Refresh.{
  IsVim, saved, gap, update_toc-generate_toc, delete_toc-generate,
}
use vim_clap.Tests.Documents.{lib, file}

-- Lines as Vim counts them, from one.
abbrev vim : VimLines
vim = record {
  deletebufline = λ first last ls. some (take (first - 1) ls ++ drop last ls);
  append = λ lnum text ls. take lnum ls ++ (text ++ drop lnum ls);
}

take-past : (before after : List Text) → take (length before) (before ++ after) ≡ before
take-past [] after = refl
take-past (b ∷ before) after = ap (λ l. b ∷ l) (take-past before after)

drop-length : (before after : List Text) → drop (length before) (before ++ after) ≡ after
drop-length [] after = refl
drop-length (b ∷ before) after = drop-length before after

drop-two :
    (before middle after : List Text)
    → drop (length before + length middle) (before ++ (middle ++ after)) ≡ after
drop-two [] middle after =
    let e : 0 + length middle ≡ length middle = omega arith in
    ap (λ n. drop n (middle ++ after)) e ∙ drop-length middle after
drop-two (b ∷ before) middle after =
    let e : length (b ∷ before) + length middle ≡ suc (length before + length middle) =
      omega arith in
    ap (λ n. drop n (b ∷ before ++ (middle ++ after))) e ∙ drop-two before middle after

vim-IsVim : IsVim vim
vim-IsVim = record {
  deletes = λ before after first rest h.
      let at : length before + 1 - 1 ≡ length before = omega arith in
      ap (λ l. some l)
        (rw (at, take-past before (first ∷ rest ++ after), drop-two before (first ∷ rest) after)
          refl);
  appends = λ before text after. rw (take-past before after, drop-length before after) refl;
}

abbrev answers : Answers
answers = record {
  reads = true;
  executes = true;
  curlnum = some 2;
  shiftwidth = some 2;
  prev_line = some (some (codes "intro"));
}

abbrev intro : List Text
intro = codes "intro" ∷ []

abbrev chapters : List Text
chapters = codes "## one" ∷ codes "~~~" ∷ codes "# no" ∷ codes "~~~" ∷ codes "### two" ∷ []

no_marker : any is_marker intro ≡ false
unfolding trim
no_marker = refl

-- The stale table is that of another file.
update_toc-generate_toc_example :
    update_toc vim lib answers (saved (intro ++ (generate_toc lib file 0 4 ++ chapters)))
    ≡ (saved (intro ++ (table lib 2 chapters ++ chapters)), true)
update_toc-generate_toc_example =
    update_toc-generate_toc vim vim-IsVim lib answers intro chapters file 0 4 2 no_marker refl refl
      refl refl

delete_toc-generate_example :
    (delete_toc vim lib answers (generate vim lib answers (saved (intro ++ chapters))).0).0.buffer
    ≡ intro ++ (gap (some (codes "intro")) ++ chapters)
delete_toc-generate_example =
    delete_toc-generate vim vim-IsVim lib answers answers intro chapters 2 (some (codes "intro"))
      no_marker refl refl refl refl refl refl refl

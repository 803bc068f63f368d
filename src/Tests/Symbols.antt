-- ===== src/Tests/Symbols.antt =====
-- The cursor moves between the first and the second symbol of a buffer.
use vim_clap.Common.{
  length, ℕ, zero, suc, ◌==◌, ◌≡◌, ◌≤◌, ◌<◌, refl, true, none, some, List, [], ◌∷◌, ltb,
  if◌then◌else◌, get_elem?, arith, ◌⊎◌, inl, inr,
}
use vim_clap.Text.{codes}
use vim_clap.Ctags.{
  shrink_text_to_fit, BufferTag, CtagsPlugin, Answers, on_cursor_moved, set_current_symbol,
  update_winbar, redraw_status,
}
use vim_clap.Ctags.Fits.{shrink_text_to_fit-length}
use vim_clap.Ctags.Nearest.{IsSorted, IsPlace, IsShown, on_cursor_moved-IsNearest}

abbrev search_from : ℕ → List ℕ → ℕ → ℕ ⊎ ℕ
search_from i [] k = inr i
search_from i (x ∷ xs) k =
    let rest = search_from (suc i) xs k in if x == k then inl i else if ltb k x then inr i else rest

abbrev search : List ℕ → ℕ → ℕ ⊎ ℕ
search keys k = search_from 0 keys k

abbrev first : BufferTag
first = record {
  name = codes "new";
  pattern = codes "fn new";
  line_number = 3;
  kind = codes "function";
  scope = none;
}

abbrev second : BufferTag
second = record first { line_number = 10 }

abbrev buffer_tags : List BufferTag
buffer_tags = first ∷ second ∷ []

abbrev plugin : CtagsPlugin
plugin = record {
  enable_winbar = none;
  last_cursor_tag = none;
  buf_tags = (1, buffer_tags) ∷ [];
  calls = [];
}

abbrev answers : Answers
answers = record { succeeds = λ c. true; is_nvim = true; curlnum = some 7; file_tags = none }

first_shown :
    (on_cursor_moved search answers 1 plugin).0.calls
    ≡ set_current_symbol 1 (some first) ∷ update_winbar 1 (some first) ∷ redraw_status ∷ []
unfolding on_cursor_moved
first_shown = refl

sorted : IsSorted (3 ∷ 10 ∷ [])
sorted zero zero x y l h k = ground arith
sorted zero (suc zero) x y l h k = ground arith
sorted (suc zero) zero x y l h k = ground arith
sorted (suc zero) (suc zero) x y l h k = ground arith
sorted (suc (suc i)) j x y l h k = ground arith
sorted i (suc (suc j)) x y l h k = ground arith

place : IsPlace (3 ∷ 10 ∷ []) 7 (inr 1)
place = (omega arith, before, behind)
  where
    before : (j x : ℕ) → j < 1 → get_elem? (3 ∷ 10 ∷ []) j ≡ some x → x < 7
    before zero x l h = ground arith
    before (suc j) x l h = ground arith

    behind : (j x : ℕ) → 1 ≤ j → get_elem? (3 ∷ 10 ∷ []) j ≡ some x → 7 < x
    behind zero x l h = ground arith
    behind (suc zero) x l h = ground arith
    behind (suc (suc j)) x l h = ground arith

on_cursor_moved-IsNearest_example : IsShown buffer_tags 7 (on_cursor_moved search answers 1 plugin)
on_cursor_moved-IsNearest_example =
    on_cursor_moved-IsNearest search answers (λ c. refl) 1 7 buffer_tags plugin refl refl sorted
      place

shrink_text_to_fit-length_example : length (shrink_text_to_fit (codes "src/main.rs") 6) ≤ 6
shrink_text_to_fit-length_example = shrink_text_to_fit-length (codes "src/main.rs") 6 (omega arith)

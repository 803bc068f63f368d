-- ===== src/Tests/Highlights.antt =====
-- The cursor moves over a word that stands twice in view, and the buffer is left.
use vim_clap.Common.{◌≡◌, refl, true, false, none, some, List, [], ◌∷◌}
use vim_clap.Common.Int.{pos}
use vim_clap.Text.{Text, codes}
use vim_clap.Input.{buf_enter, cursor_moved, buf_leave}
use vim_clap.Highlighter.Plugin.{Setup, Answers, added, matchdelete_batch}
use vim_clap.Highlighter.Plugin.Balance.{
  IsBalanced, HighlighterEvent, run_highlighter, new_highlighter, run_highlighter-IsBalanced,
}

-- Every line has a match at its start and one at byte 4.
abbrev setup : Setup Text
setup = record {
  regexes = record { build = λ t. some t; find_at = λ r line. some (0, 3) };
  find_iter = λ r line. (0, 3) ∷ (4, 7) ∷ [];
  extension = λ path. some (codes "rs");
  file_name = λ path. some path;
  line_comments = λ ext. some (codes "//" ∷ []);
  ignore_comment_line = false;
  keyword_highlight_comment_line_only = true;
  keyword_matcher = (record { text = codes "TODO" }, codes "TODO") ∷ [];
  keywords = (codes "TODO", codes "Todo") ∷ [];
  ignore_extensions = codes "*.toml" ∷ [];
  ignore_file_names = codes "tmp" ∷ [];
}

abbrev answers : Answers
answers = record {
  current_buffer_path = some (codes "a.rs");
  bufabspath = some (codes "a.rs");
  is_file = λ path. true;
  get_screen_lines_range = some (record { winid = 1000; line_start = 1; line_end = 1 });
  cword = some (codes "foo");
  getpos = some (1, 5);
  curline = some (codes "foo foo");
  bufmodified = some true;
  getbufline = λ first last. some (codes "foo foo" ∷ []);
  read_lines_from = λ path from number. none;
  add_highlights = λ h. some (pos 7 ∷ pos 8 ∷ []);
  add_keyword_highlights = λ h. some (pos 9 ∷ []);
  deletes = true;
}

abbrev events : List HighlighterEvent
events =
    (buf_enter, 1, answers)
    ∷ (cursor_moved, 1, answers)
    ∷ (cursor_moved, 1, answers)
    ∷ (buf_leave, 1, answers)
    ∷ []

added_twice :
    (run_highlighter setup events new_highlighter).calls
    ≡ matchdelete_batch (record { winid = 1000; match_ids = pos 7 ∷ pos 8 ∷ [] })
      ∷ matchdelete_batch (record { winid = 1000; match_ids = pos 7 ∷ pos 8 ∷ [] })
      ∷ added (record { winid = 1000; match_ids = pos 7 ∷ pos 8 ∷ [] })
      ∷ added (record { winid = 1000; match_ids = pos 7 ∷ pos 8 ∷ [] })
      ∷ []
unfolding run_highlighter
added_twice = refl

run_highlighter-IsBalanced_example :
    IsBalanced (λ h. 1) (run_highlighter setup events new_highlighter)
run_highlighter-IsBalanced_example = run_highlighter-IsBalanced (λ h. 1) setup events

-- ===== src/Highlighter/Plugin.antt =====
-- crates/maple_core/src/stdio_server/plugin/word_highlighter.rs: the highlights that the plugin has added to a
-- window and remembers. What Vim answers during one event is a parameter.
pub mod Balance
use vim_clap.Common.Outcomes.{and_then}
use vim_clap.Common.{
  ℕ, ◌+◌, ◌-◌, ◌==◌, Bool, true, false, not, ◌&&◌, ◌||◌, Option, none, some, List, [], ◌∷◌, any,
  if◌then◌else◌, is_empty, leb, drop,
}
use vim_clap.Common.Int.{ℤ}
use vim_clap.Common.Options.{◌>>=◌}
use vim_clap.Common.Table.{value_at, has_key, write_at, remove_key}
use vim_clap.Text.{Text, text_eq}
use vim_clap.Input.{
  AutocmdEventType, buf_enter, buf_win_enter, buf_write_post, buf_delete, buf_leave, buf_win_leave,
  cursor_moved, insert_enter,
}
use vim_clap.Utils.{char_at}
use vim_clap.CodeTools.Language.{is_comment}
use vim_clap.Matcher.Word.{WordMatcher, RegexCrate, new_word_matcher}
use vim_clap.Highlighter.{
  WordHighlights, KeywordHighlight, find_word_highlights, find_keyword_highlights,
}

-- The ids of matches in a window.
pub record OldHighlights : Type 0 where
  pub winid : ℕ
  pub match_ids : List ℤ

pub data HighlightCall : Type 0 where
  added matchdelete_batch : OldHighlights → HighlightCall

-- `calls`: what Vim did or was asked to do, the last one first.
pub record WordHighlighter : Type 0 where
  pub bufs : List (ℕ × Text)
  pub cursor_highlights : Option OldHighlights
  pub keyword_highlights : Option OldHighlights
  pub calls : List HighlightCall

pub record ScreenLinesRange : Type 0 where
  pub winid : ℕ
  pub line_start : ℕ
  pub line_end : ℕ

-- What Vim and the file system answer during one event; the outer `none` is an error.
pub record Answers : Type 0 where
  pub current_buffer_path : Option Text
  pub bufabspath : Option Text
  pub is_file : Text → Bool
  pub get_screen_lines_range : Option ScreenLinesRange
  pub cword : Option Text
  -- The line and the column, both from 1.
  pub getpos : Option (ℕ × ℕ)
  pub curline : Option Text
  pub bufmodified : Option Bool
  pub getbufline : ℕ → ℕ → Option (List Text)
  pub read_lines_from : Text → ℕ → ℕ → Option (List Text)
  pub add_highlights : WordHighlights → Option (List ℤ)
  pub add_keyword_highlights : List KeywordHighlight → Option (List ℤ)
  pub deletes : Bool

-- The configuration, the parts of a path, and the libraries.
pub record Setup (Regex : Type 0) : Type 0 where
  pub regexes : RegexCrate Regex
  pub find_iter : Regex → Text → List (ℕ × ℕ)
  pub extension : Text → Option Text
  pub file_name : Text → Option Text
  pub line_comments : Text → Option (List Text)
  pub ignore_comment_line : Bool
  pub keyword_highlight_comment_line_only : Bool
  pub keyword_matcher : WordMatcher Regex
  pub keywords : List (Text × Text)
  pub ignore_extensions : List Text
  pub ignore_file_names : List Text

-- The state, and whether the handler succeeded.
abbrev pub Result : Type 0
Result = WordHighlighter × Bool

abbrev pub is_word : ℕ → Bool
is_word c =
    leb b'0' c && leb c b'9'
    || (leb b'A' c && leb c b'Z' || (leb b'a' c && leb c b'z' || c == b'_'))

-- What Vim added is noted.
abbrev pub noted : Option OldHighlights → List HighlightCall → List HighlightCall
noted none calls = calls
noted (some h) calls = added h ∷ calls

module _ {Regex : Type 0} (setup : Setup Regex) (a : Answers) where
  abbrev pub comments_of : Text → Text → Bool
  comments_of source_file line = elim (setup.extension source_file) [
    | none ↦ false
    | some ext ↦ is_comment setup.line_comments line ext
  ]

  -- The lines in view, of the buffer if it is modified and of the file otherwise.
  abbrev pub lines_in_view : Text → ScreenLinesRange → Option (List Text)
  lines_in_view source_file s = a.bufmodified >>= λ modified.
      if modified
      then a.getbufline s.line_start s.line_end
      else a.read_lines_from source_file (s.line_start - 1) (s.line_end - s.line_start + 1)

  abbrev pub at_word : Text → ℕ → Bool
  at_word curline col = elim (char_at curline (col - 1)) [
    | none ↦ false
    | some cursor_char ↦ is_word cursor_char
  ]

  abbrev pub add_word : ScreenLinesRange → Option WordHighlights → Option (Option OldHighlights)
  add_word s none = some none
  add_word s (some highlights) = a.add_highlights highlights >>= λ ids.
      some (some (record { winid = s.winid; match_ids = ids }))

  abbrev pub add_twins : ScreenLinesRange → Text → ℕ → ℕ → Text → Option (Option OldHighlights)
  add_twins s source_file curlnum col cword = lines_in_view source_file s >>= λ lines.
      let matcher = new_word_matcher setup.regexes (record { text = cword } ∷ []) in
      add_word s (find_word_highlights setup.find_iter matcher lines s.line_start curlnum col cword)

  abbrev pub add_at_cursor :
      ScreenLinesRange → Text → Text → ℕ → ℕ → Text → Option (Option OldHighlights)
  add_at_cursor s source_file curline curlnum col cword =
      if setup.ignore_comment_line && comments_of source_file curline
      then some none
      else if at_word curline col
      then add_twins s source_file curlnum col cword
      else some none

  -- The outer `none` is an error.
  unfoldable pub create_new_highlights :
      ℕ → ScreenLinesRange → WordHighlighter → Option (Option OldHighlights)
  unfolding find_word_highlights char_at is_comment new_word_matcher
  create_new_highlights bufnr s g = a.cword >>= λ cword.
      if is_empty cword
      then some none
      else value_at bufnr g.bufs >>= λ source_file. a.getpos >>= λ position.
          a.curline >>= λ curline. add_at_cursor s source_file curline position.0 position.1 cword

  abbrev pub delete_old : Option OldHighlights → WordHighlighter → Result
  delete_old none g = (g, true)
  delete_old (some h) g = (record g { calls = matchdelete_batch h ∷ g.calls }, a.deletes)

  -- The old highlights go after the new ones are there.
  abbrev pub store_cursor : Option (Option OldHighlights) → WordHighlighter → Result
  store_cursor none g = (g, false)
  store_cursor (some new_highlights) g =
      delete_old g.cursor_highlights
        (record g { cursor_highlights = new_highlights; calls = noted new_highlights g.calls })

  unfoldable pub highlight_symbol_under_cursor : ℕ → ScreenLinesRange → WordHighlighter → Result
  unfolding create_new_highlights
  highlight_symbol_under_cursor bufnr s g = store_cursor (create_new_highlights bufnr s g) g

  abbrev pub store_keywords : Option (Option OldHighlights) → WordHighlighter → Result
  store_keywords none g = (g, false)
  store_keywords (some new_highlights) g =
      delete_old g.keyword_highlights
        (record g { keyword_highlights = new_highlights; calls = noted new_highlights g.calls })

  abbrev pub add_keywords : ScreenLinesRange → List KeywordHighlight → Option (Option OldHighlights)
  add_keywords s [] = some none
  add_keywords s (h ∷ hs) = a.add_keyword_highlights (h ∷ hs) >>= λ ids.
      some (some (record { winid = s.winid; match_ids = ids }))

  abbrev pub keywords_in_view : Text → Text → ScreenLinesRange → Option (Option OldHighlights)
  keywords_in_view source_file ext s = lines_in_view source_file s >>= λ lines. add_keywords s (
      find_keyword_highlights setup.find_iter setup.keyword_matcher setup.keywords
        setup.keyword_highlight_comment_line_only (λ line. is_comment setup.line_comments line ext)
        s.line_start lines)

  abbrev pub keywords_of : Option Text → ScreenLinesRange → WordHighlighter → Result
  keywords_of none s g = (g, false)
  keywords_of (some source_file) s g = elim (setup.extension source_file) [
    | none ↦ (g, true)
    | some ext ↦ store_keywords (keywords_in_view source_file ext s) g
  ]

  unfoldable pub highlight_keywords : ScreenLinesRange → WordHighlighter → Result
  unfolding find_keyword_highlights is_comment
  highlight_keywords s g = keywords_of a.bufabspath s g

  unfoldable pub clear_highlights : WordHighlighter → Result
  clear_highlights g = delete_old g.cursor_highlights (record g { cursor_highlights = none })

  -- The extensions are written as in `*.toml`.
  abbrev pub is_ignored : Text → Text → Bool
  is_ignored file_extension file_name =
      any (λ s. text_eq (drop 2 s) file_extension) setup.ignore_extensions
      || any (text_eq file_name) setup.ignore_file_names

  abbrev pub source_kept : Text → Bool
  source_kept source_file = elim (setup.extension source_file) [
    | none ↦ false
    | some file_extension ↦ elim (setup.file_name source_file) [
      | none ↦ false
      | some file_name ↦ a.is_file source_file && not (is_ignored file_extension file_name)
    ]
  ]

  abbrev pub track_path : ℕ → Option Text → WordHighlighter → Result
  track_path bufnr none g = (g, false)
  track_path bufnr (some source_file) g =
      if source_kept source_file
      then (record g { bufs = write_at bufnr source_file g.bufs }, true)
      else (g, true)

  unfoldable pub try_track_source : ℕ → WordHighlighter → Result
  try_track_source bufnr g =
      if has_key bufnr g.bufs then (g, true) else track_path bufnr a.current_buffer_path g

  abbrev pub with_range : (ScreenLinesRange → Result) → WordHighlighter → Result
  with_range f g = elim (a.get_screen_lines_range) [ none ↦ (g, false) | some s ↦ f s ]

  abbrev pub if_tracked : ℕ → (WordHighlighter → Result) → WordHighlighter → Result
  if_tracked bufnr f g = if has_key bufnr g.bufs then f g else (g, true)

  abbrev pub on_enter : ℕ → WordHighlighter → Result
  on_enter bufnr g =
      and_then (try_track_source bufnr g) λ g. with_range (λ s. highlight_keywords s g) g

  abbrev pub on_leave : ℕ → WordHighlighter → Result
  on_leave bufnr g = clear_highlights (record g { bufs = remove_key bufnr g.bufs })

  abbrev pub on_moved : ℕ → WordHighlighter → Result
  on_moved bufnr g =
      with_range
        (λ s.
          and_then (highlight_keywords s g)
            (if_tracked bufnr (highlight_symbol_under_cursor bufnr s)))
        g

  -- `handle_autocmd`; any other event is an error.
  unfoldable pub on_event : AutocmdEventType → ℕ → WordHighlighter → Result
  unfolding try_track_source highlight_keywords clear_highlights highlight_symbol_under_cursor
  on_event buf_enter bufnr g = on_enter bufnr g
  on_event buf_win_enter bufnr g = on_enter bufnr g
  on_event buf_write_post bufnr g = with_range (λ s. highlight_keywords s g) g
  on_event buf_delete bufnr g = on_leave bufnr g
  on_event buf_leave bufnr g = on_leave bufnr g
  on_event buf_win_leave bufnr g = on_leave bufnr g
  on_event cursor_moved bufnr g = on_moved bufnr g
  on_event insert_enter bufnr g = if_tracked bufnr clear_highlights g
  on_event other bufnr g = (g, false)

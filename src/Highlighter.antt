-- ===== src/Highlighter.antt =====
-- crates/maple_core/src/stdio_server/plugin/word_highlighter.rs: the occurrences of the word under the cursor
-- and of keywords. `find_iter` of crates/matcher/src/matchers/word_matcher.rs is that of the crate
-- grep-regex: the bytes of all the matches in a line.
pub mod Plugin
use vim_clap.Common.{
  ℕ, suc, ◌+◌, ◌-◌, ◌==◌, Bool, true, false, not, ◌&&◌, Option, none, some, List, [], ◌∷◌, ◌++◌,
  map, filter, if◌then◌else◌, leb, ltb,
}
use vim_clap.Text.{Text, byte_len, text_eq}
use vim_clap.Types.SearchTerm.{WordTerm}
use vim_clap.Matcher.Word.{WordMatcher}

-- `Range<usize>`
abbrev pub ByteRange : Type 0
ByteRange = ℕ × ℕ

abbrev pub in_range : ℕ → ByteRange → Bool
in_range n (start, end) = leb start n && ltb n end

pub record WordHighlights : Type 0 where
  -- The line number and the start of the highlight.
  pub twins_words_highlight : List (ℕ × ℕ)
  pub cword_highlight : ℕ × ℕ
  pub cword_len : ℕ

pub record KeywordHighlight : Type 0 where
  pub line_number : ℕ
  pub col : ℕ
  pub length : ℕ
  pub hl_group : Text

-- The group of a keyword; the empty text without one.
abbrev pub group_of : Text → List (Text × Text) → Text
group_of word [] = []
group_of word ((keyword, group) ∷ keywords) =
    let rest = group_of word keywords in if text_eq keyword word then group else rest

module _ {Regex : Type 0} (find_iter : Regex → Text → List (ℕ × ℕ)) where
  -- The ranges, each with the length of its word.
  unfoldable pub find_all_matches_range : WordMatcher Regex → Text → List (ByteRange × ℕ)
  unfolding byte_len
  find_all_matches_range [] line = []
  find_all_matches_range ((word_term, word_matcher) ∷ matchers) line =
      map (λ matched. (matched, byte_len word_term.text)) (find_iter word_matcher line)
      ++ find_all_matches_range matchers line

  unfoldable pub find_keyword_matches :
      WordMatcher Regex → Text → List (Text × Text) → List (ByteRange × ℕ × Text)
  unfolding byte_len
  find_keyword_matches [] line keywords = []
  find_keyword_matches ((word_term, word_matcher) ∷ matchers) line keywords =
      map (λ matched. (matched, byte_len word_term.text, group_of word_term.text keywords))
        (find_iter word_matcher line)
      ++ find_keyword_matches matchers line keywords

  -- The start of the first range with the cursor.
  abbrev pub cursor_word_start : ℕ → List (ByteRange × ℕ) → Option ℕ
  cursor_word_start n [] = none
  cursor_word_start n ((word_range, len) ∷ ranges) =
      let rest = cursor_word_start n ranges in
      if in_range n word_range then some word_range.0 else rest

  abbrev pub is_cursor_word : ℕ → ℕ → ℕ → ByteRange × ℕ → Bool
  is_cursor_word curlnum col line_number (word_range, len) =
      line_number == curlnum && in_range (col - 1) word_range

  -- The occurrences of a line but for the one at the cursor.
  abbrev pub twins : ℕ → ℕ → ℕ → List (ByteRange × ℕ) → List (ℕ × ℕ)
  twins curlnum col line_number ranges =
      map (λ r. (line_number, r.0.0))
        (filter (λ r. not (is_cursor_word curlnum col line_number r)) ranges)

  abbrev pub cursor_here : ℕ → ℕ → ℕ → List (ByteRange × ℕ) → Option (ℕ × ℕ)
  cursor_here curlnum col line_number ranges =
      if line_number == curlnum
      then elim (cursor_word_start (col - 1) ranges) [
        | none ↦ none
        | some start ↦ some (line_number, start)
      ]
      else none

  -- A later occurrence at the cursor replaces an earlier one.
  abbrev pub replaced : Option (ℕ × ℕ) → Option (ℕ × ℕ) → Option (ℕ × ℕ)
  replaced earlier none = earlier
  replaced earlier (some later) = some later

  unfoldable pub scan_lines :
      WordMatcher Regex → ℕ → ℕ → ℕ → List Text → List (ℕ × ℕ) × Option (ℕ × ℕ)
  unfolding find_all_matches_range
  scan_lines matcher curlnum col line_number [] = ([], none)
  scan_lines matcher curlnum col line_number (line ∷ lines) =
      let (rest, later) = scan_lines matcher curlnum col (suc line_number) lines in
      let matches_range = find_all_matches_range matcher line in
      (
        twins curlnum col line_number matches_range ++ rest,
        replaced (cursor_here curlnum col line_number matches_range) later,
      )

  -- `matcher` is that of the word.
  unfoldable pub find_word_highlights :
      WordMatcher Regex → List Text → ℕ → ℕ → ℕ → Text → Option WordHighlights
  unfolding scan_lines byte_len
  find_word_highlights matcher lines line_start curlnum col cword =
      let (twins_words_highlight, cursor_word_highlight) =
        scan_lines matcher curlnum col line_start lines in
      elim cursor_word_highlight [
        | none ↦ none
        | some cword_highlight ↦ some (record {
          twins_words_highlight = twins_words_highlight;
          cword_highlight = cword_highlight;
          cword_len = byte_len cword;
        })
      ]

  abbrev pub highlight_of : ℕ → ByteRange × ℕ × Text → KeywordHighlight
  highlight_of line_number (range, len, group) = record {
    line_number = line_number;
    col = range.0;
    length = len;
    hl_group = group;
  }

  -- `is_comment` is that of the extension of the file.
  unfoldable pub find_keyword_highlights :
      WordMatcher Regex
      → List (Text × Text)
      → Bool
      → (Text → Bool)
      → ℕ
      → List Text
      → List KeywordHighlight
  unfolding find_keyword_matches
  find_keyword_highlights matcher keywords comment_line_only is_comment line_number [] = []
  find_keyword_highlights matcher keywords comment_line_only is_comment line_number (line ∷ lines) =
      let rest =
        find_keyword_highlights matcher keywords comment_line_only is_comment (suc line_number)
          lines in
      (if comment_line_only && is_comment line
        then map (highlight_of line_number) (find_keyword_matches matcher line keywords)
        else [])
      ++ rest

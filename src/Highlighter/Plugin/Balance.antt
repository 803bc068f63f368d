-- ===== src/Highlighter/Plugin/Balance.antt =====
-- No highlight is forgotten: crates/maple_core/src/stdio_server/plugin/word_highlighter.rs.
use vim_clap.Common.Outcomes.{and_then-keeps, chosen}
use vim_clap.Common.{
  ℕ, ◌+◌, ◌≡◌, refl, Option, none, some, List, [], ◌∷◌, arith, Option-cases, inl, inr,
}
use vim_clap.Common.Table.{has_key, remove_key}
use vim_clap.Text.{Text}
use vim_clap.Input.{
  AutocmdEventType, buf_enter, buf_win_enter, buf_write_post, buf_delete, buf_leave, buf_win_leave,
  cursor_moved, insert_enter, buf_new_file, text_changed, text_changed_i,
}
use vim_clap.Highlighter.Plugin.{
  OldHighlights, HighlightCall, added, matchdelete_batch, WordHighlighter, Answers, Setup,
  ScreenLinesRange, Result, noted, delete_old, store_cursor, store_keywords, keywords_of,
  keywords_in_view, create_new_highlights, highlight_symbol_under_cursor, highlight_keywords,
  clear_highlights, source_kept, try_track_source, with_range, on_enter, on_moved, on_event,
}

abbrev pub total_added : (OldHighlights → ℕ) → List HighlightCall → ℕ
total_added w [] = 0
total_added w (added h ∷ calls) = w h + total_added w calls
total_added w (matchdelete_batch h ∷ calls) = total_added w calls

abbrev pub total_deleted : (OldHighlights → ℕ) → List HighlightCall → ℕ
total_deleted w [] = 0
total_deleted w (added h ∷ calls) = total_deleted w calls
total_deleted w (matchdelete_batch h ∷ calls) = w h + total_deleted w calls

abbrev pub held : (OldHighlights → ℕ) → Option OldHighlights → ℕ
held w none = 0
held w (some h) = w h

-- What was added is what was to be deleted and what is remembered.
abbrev pub IsBalanced : (OldHighlights → ℕ) → WordHighlighter → Type 0
IsBalanced w g =
    total_added w g.calls
    ≡ total_deleted w g.calls + held w g.cursor_highlights + held w g.keyword_highlights

abbrev pub HighlighterEvent : Type 0
HighlighterEvent = AutocmdEventType × ℕ × Answers

abbrev pub new_highlighter : WordHighlighter
new_highlighter = record {
  bufs = [];
  cursor_highlights = none;
  keyword_highlights = none;
  calls = [];
}

module _ (w : OldHighlights → ℕ) where
  added-noted :
      (o : Option OldHighlights) (calls : List HighlightCall)
      → total_added w (noted o calls) ≡ held w o + total_added w calls
  added-noted none calls = omega arith
  added-noted (some h) calls = refl

  deleted-noted :
      (o : Option OldHighlights) (calls : List HighlightCall)
      → total_deleted w (noted o calls) ≡ total_deleted w calls
  deleted-noted none calls = refl
  deleted-noted (some h) calls = refl

  module _ {Regex : Type 0} (setup : Setup Regex) (a : Answers) where
    delete_old-IsBalanced :
        (o : Option OldHighlights) (g : WordHighlighter)
        → total_added w g.calls
          ≡ total_deleted w g.calls
            + held w o
            + held w g.cursor_highlights
            + held w g.keyword_highlights
        → IsBalanced w (delete_old setup a o g).0
    delete_old-IsBalanced none g h = omega arith
    delete_old-IsBalanced (some x) g h = omega arith

    store_cursor-IsBalanced :
        (o : Option (Option OldHighlights)) (g : WordHighlighter)
        → IsBalanced w g
        → IsBalanced w (store_cursor setup a o g).0
    store_cursor-IsBalanced none g h = h
    store_cursor-IsBalanced (some new) g h =
        delete_old-IsBalanced g.cursor_highlights
          (record g { cursor_highlights = new; calls = noted new g.calls })
          (omega (arith, added-noted new g.calls, deleted-noted new g.calls))

    store_keywords-IsBalanced :
        (o : Option (Option OldHighlights)) (g : WordHighlighter)
        → IsBalanced w g
        → IsBalanced w (store_keywords setup a o g).0
    store_keywords-IsBalanced none g h = h
    store_keywords-IsBalanced (some new) g h =
        delete_old-IsBalanced g.keyword_highlights
          (record g { keyword_highlights = new; calls = noted new g.calls })
          (omega (arith, added-noted new g.calls, deleted-noted new g.calls))

    keywords_of-IsBalanced :
        (path : Option Text) (s : ScreenLinesRange) (g : WordHighlighter)
        → IsBalanced w g
        → IsBalanced w (keywords_of setup a path s g).0
    keywords_of-IsBalanced none s g h = h
    keywords_of-IsBalanced (some path) s g h = elim (Option-cases (setup.extension path)) [
      | inl e ↦ rw (keywords_of, e) h
      | inr (ext, e) ↦
          rw (keywords_of, e) (store_keywords-IsBalanced (keywords_in_view setup a path ext s) g h)
    ]

    highlight_keywords-IsBalanced :
        (s : ScreenLinesRange) (g : WordHighlighter)
        → IsBalanced w g
        → IsBalanced w (highlight_keywords setup a s g).0
    unfolding highlight_keywords
    highlight_keywords-IsBalanced s g h = keywords_of-IsBalanced a.bufabspath s g h

    clear_highlights-IsBalanced :
        (g : WordHighlighter) → IsBalanced w g → IsBalanced w (clear_highlights setup a g).0
    unfolding clear_highlights
    clear_highlights-IsBalanced g h =
        delete_old-IsBalanced g.cursor_highlights (record g { cursor_highlights = none })
          (omega arith)

    try_track_source-IsBalanced :
        (n : ℕ) (g : WordHighlighter)
        → IsBalanced w g
        → IsBalanced w (try_track_source setup a n g).0
    unfolding try_track_source
    try_track_source-IsBalanced n g h =
        chosen (IsBalanced w) (has_key n g.bufs) _ _ h (elim (Option-cases a.current_buffer_path) [
          | inl e ↦ rw e h
          | inr (path, e) ↦ rw e (chosen (IsBalanced w) (source_kept setup a path) _ _ h h)
        ])

    with_range-IsBalanced :
        (f : ScreenLinesRange → Result) (g : WordHighlighter)
        → IsBalanced w g
        → ((s : ScreenLinesRange) → IsBalanced w (f s).0)
        → IsBalanced w (with_range setup a f g).0
    with_range-IsBalanced f g h k = elim (Option-cases a.get_screen_lines_range) [
      | inl e ↦ rw e h
      | inr (s, e) ↦ rw e (k s)
    ]

    on_enter-IsBalanced :
        (n : ℕ) (g : WordHighlighter) → IsBalanced w g → IsBalanced w (on_enter setup a n g).0
    on_enter-IsBalanced n g h =
        and_then-keeps (IsBalanced w) (try_track_source setup a n g) _
          (try_track_source-IsBalanced n g h)
          λ g h. with_range-IsBalanced _ g h λ s. highlight_keywords-IsBalanced s g h

    on_moved-IsBalanced :
        (n : ℕ) (g : WordHighlighter) → IsBalanced w g → IsBalanced w (on_moved setup a n g).0
    unfolding highlight_symbol_under_cursor
    on_moved-IsBalanced n g h = with_range-IsBalanced _ g h λ s.
        and_then-keeps (IsBalanced w) (highlight_keywords setup a s g) _
          (highlight_keywords-IsBalanced s g h)
          λ g h.
            chosen (IsBalanced w) (has_key n g.bufs) _ _
              (store_cursor-IsBalanced (create_new_highlights setup a n s g) g h) h

    on_event-IsBalanced :
        (ty : AutocmdEventType) (n : ℕ) (g : WordHighlighter)
        → IsBalanced w g
        → IsBalanced w (on_event setup a ty n g).0
    unfolding on_event
    on_event-IsBalanced buf_enter n g h = on_enter-IsBalanced n g h
    on_event-IsBalanced buf_win_enter n g h = on_enter-IsBalanced n g h
    on_event-IsBalanced buf_write_post n g h =
        with_range-IsBalanced _ g h λ s. highlight_keywords-IsBalanced s g h
    on_event-IsBalanced buf_delete n g h =
        clear_highlights-IsBalanced (record g { bufs = remove_key n g.bufs }) h
    on_event-IsBalanced buf_leave n g h =
        clear_highlights-IsBalanced (record g { bufs = remove_key n g.bufs }) h
    on_event-IsBalanced buf_win_leave n g h =
        clear_highlights-IsBalanced (record g { bufs = remove_key n g.bufs }) h
    on_event-IsBalanced cursor_moved n g h = on_moved-IsBalanced n g h
    on_event-IsBalanced insert_enter n g h =
        chosen (IsBalanced w) (has_key n g.bufs) _ _ (clear_highlights-IsBalanced g h) h
    on_event-IsBalanced buf_new_file n g h = h
    on_event-IsBalanced text_changed n g h = h
    on_event-IsBalanced text_changed_i n g h = h

unfoldable pub run_highlighter :
    {Regex : Type 0} → Setup Regex → List HighlighterEvent → WordHighlighter → WordHighlighter
unfolding on_event
run_highlighter setup [] g = g
run_highlighter setup ((ty, bufnr, a) ∷ events) g =
    run_highlighter setup events (on_event setup a ty bufnr g).0

run_from-IsBalanced :
    (w : OldHighlights → ℕ) {Regex : Type 0} (setup : Setup Regex) (events : List HighlighterEvent)
    (g : WordHighlighter)
    → IsBalanced w g
    → IsBalanced w (run_highlighter setup events g)
unfolding run_highlighter
run_from-IsBalanced w setup [] g h = h
run_from-IsBalanced w setup ((ty, bufnr, a) ∷ events) g h =
    run_from-IsBalanced w setup events (on_event setup a ty bufnr g).0
      (on_event-IsBalanced w setup a ty bufnr g h)

-- Along any events, whatever Vim answers and wherever a handler ends with an error: for any weights of the
-- batches of highlights that Vim has added, the weights of those add up to the weights of the batches that
-- the plugin asked Vim to delete and of the two, at most, that it remembers. So every batch is remembered or was
-- to be deleted, and as often as it was added.
pub run_highlighter-IsBalanced :
    (w : OldHighlights → ℕ) {Regex : Type 0} (setup : Setup Regex) (events : List HighlighterEvent)
    → IsBalanced w (run_highlighter setup events new_highlighter)
run_highlighter-IsBalanced w setup events = run_from-IsBalanced w setup events new_highlighter refl

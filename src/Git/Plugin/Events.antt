-- ===== src/Git/Plugin/Events.antt =====
-- The events and the actions of the git plugin: crates/maple_core/src/stdio_server/plugin/git.rs.
use vim_clap.Common.Outcomes.{and_then}
use vim_clap.Common.{ℕ, not, true, false, Option, none, some, List, [], ◌∷◌, if◌then◌else◌}
use vim_clap.Common.Table.{has_key, write_at, remove_key}
use vim_clap.Text.{Text}
use vim_clap.Input.{
  AutocmdEventType, buf_enter, buf_write_post, buf_delete, insert_enter, buf_leave, cursor_moved,
}
use vim_clap.Git.Plugin.{
  clear_blame_info, clear_blame_info, clear_visual_signs, GitPlugin, Answers, Result, exec,
  show_curline_line_blame, show_gutter_signs, update_diff_modifications,
  update_diff_summary_and_modifications,
}
use vim_clap.Common.{none, some, Bool, true, false, not, if◌then◌else◌, Option, List, ℕ}
use vim_clap.Common.Table.{write_at, has_key, remove_key}
use vim_clap.Text.{Text}

module _ (a : Answers) where
  abbrev pub track : ℕ → Option (Option Text) → GitPlugin → GitPlugin × Option Bool
  track bufnr none g = (g, none)
  track bufnr (some none) g = (g, some false)
  track bufnr (some (some filepath)) g =
      (record g { bufs = write_at bufnr filepath g.bufs }, some true)

  -- The result is an error, or whether the buffer is tracked.
  unfoldable pub try_track_buffer : ℕ → GitPlugin → GitPlugin × Option Bool
  try_track_buffer bufnr g =
      if has_key bufnr g.bufs then (g, some true) else track bufnr a.tracked_file g

  abbrev pub entered : ℕ → GitPlugin × Option Bool → Result
  entered bufnr (g, none) = (g, false)
  entered bufnr (g, some false) = (g, true)
  entered bufnr (g, some true) =
      and_then (show_curline_line_blame a bufnr g) (update_diff_summary_and_modifications a bufnr)

  abbrev pub forget : ℕ → GitPlugin → GitPlugin
  forget bufnr g = record g {
    bufs = remove_key bufnr g.bufs;
    git_summary = remove_key bufnr g.git_summary;
    git_modifications = remove_key bufnr g.git_modifications;
  }

  -- Any other event is an error.
  abbrev pub on_autocmd : AutocmdEventType → ℕ → GitPlugin → Result
  on_autocmd buf_enter bufnr g = entered bufnr (try_track_buffer bufnr g)
  on_autocmd buf_write_post bufnr g = update_diff_summary_and_modifications a bufnr g
  on_autocmd buf_delete bufnr g = (forget bufnr g, true)
  on_autocmd insert_enter bufnr g = exec a (clear_blame_info bufnr) g
  on_autocmd buf_leave bufnr g = exec a (clear_blame_info bufnr) g
  on_autocmd cursor_moved bufnr g =
      and_then (show_curline_line_blame a bufnr g) (show_gutter_signs a bufnr)
  on_autocmd other bufnr g = (g, false)

  unfoldable pub handle_autocmd : AutocmdEventType → ℕ → GitPlugin → Result
  unfolding try_track_buffer update_diff_summary_and_modifications show_gutter_signs
  handle_autocmd ty bufnr g = if g.is_on then on_autocmd ty bufnr g else (g, true)

  -- The `for` of the toggle: the first error ends it.
  abbrev pub clear_all : List (ℕ × Text) → GitPlugin → Result
  clear_all [] g = (g, true)
  clear_all ((bufnr, filepath) ∷ bufs) g =
      and_then (exec a (clear_blame_info bufnr) g)
        λ g. and_then (exec a (clear_visual_signs bufnr) g) λ g. clear_all bufs g

  abbrev pub switch : GitPlugin → Result
  switch g = (record g { is_on = not g.is_on }, true)

  abbrev pub show_current : Option ℕ → GitPlugin → Result
  show_current none g = (g, false)
  show_current (some bufnr) g = show_curline_line_blame a bufnr g

  -- `GitAction::Toggle`
  unfoldable pub toggle : GitPlugin → Result
  toggle g =
      and_then (if g.is_on then clear_all g.bufs g else show_current a.current_bufnr g) switch

  abbrev pub track_current : Option ℕ → Option (Option Text) → GitPlugin → Result
  track_current none file g = (g, false)
  track_current (some bufnr) none g = (g, false)
  track_current (some bufnr) (some none) g = (g, true)
  track_current (some bufnr) (some (some filepath)) g =
      update_diff_modifications a bufnr (record g { bufs = write_at bufnr filepath g.bufs })

  -- `GitAction::HunkModifications`
  unfoldable pub hunk_modifications : GitPlugin → Result
  unfolding update_diff_modifications
  hunk_modifications g = track_current a.current_bufnr a.repo_file g

-- ===== src/Git/Plugin/Tracked.antt =====
-- The buffers of the git plugin: crates/maple_core/src/stdio_server/plugin/git.rs.
use vim_clap.Common.Outcomes.{and_then-keeps, chosen}
use vim_clap.Common.{
  ℕ, refl, Bool, true, false, Option, none, some, List, [], ◌∷◌, if◌then◌else◌, arith, Bool-cases,
  inl, inr,
}
use vim_clap.Common.Table.{has_key, write_at, has_key-write_at, has_key-remove_key}
use vim_clap.Text.{Text}
use vim_clap.Input.{
  AutocmdEventType, cursor_moved, insert_enter, buf_new_file, buf_enter, buf_leave, buf_delete,
  buf_write_post, buf_win_enter, buf_win_leave, text_changed, text_changed_i,
}
use vim_clap.Git.Plugin.{
  clear_visual_signs, clear_blame_info, GitPlugin, Answers, exec,
  update_diff_summary_and_modifications, show_gutter_signs, show_curline_line_blame,
}
use vim_clap.Git.Plugin.Events.{
  track, try_track_buffer, entered, forget, on_autocmd, handle_autocmd, clear_all, switch,
  show_current, toggle, track_current, hunk_modifications,
}
use vim_clap.Git.Plugin.Kept.{
  IsTracked, exec-IsTracked, update_modifications-IsTracked, gutter-IsTracked, blame-IsTracked,
  update-IsTracked,
}

-- The event of the editor or the action, with what Vim and git answer.
pub data PluginStep : Type 0 where
  autocmd : AutocmdEventType → ℕ → Answers → PluginStep
  toggled hunks_asked : Answers → PluginStep

unfoldable pub take_step : PluginStep → GitPlugin → GitPlugin
unfolding handle_autocmd toggle hunk_modifications
take_step (autocmd ty bufnr a) g = (handle_autocmd a ty bufnr g).0
take_step (toggled a) g = (toggle a g).0
take_step (hunks_asked a) g = (hunk_modifications a g).0

unfoldable pub run_steps : List PluginStep → GitPlugin → GitPlugin
unfolding take_step
run_steps [] g = g
run_steps (s ∷ ss) g = run_steps ss (take_step s g)

abbrev pub new_plugin : GitPlugin
new_plugin = record {
  bufs = [];
  git_summary = [];
  git_modifications = [];
  is_on = true;
  calls = [];
}

module _ (a : Answers) where
  -- One more tracked buffer.
  write-IsTracked :
      (n : ℕ) (f : Text) (g : GitPlugin)
      → IsTracked g
      → IsTracked (record g { bufs = write_at n f g.bufs })
  write-IsTracked n f g h = record {
    summaries = λ k. ground (arith, h.summaries k, has_key-write_at {0} n k f g.bufs);
    signs = λ k. ground (arith, h.signs k, has_key-write_at {0} n k f g.bufs);
  }

  forget-IsTracked : (n : ℕ) (g : GitPlugin) → IsTracked g → IsTracked (forget a n g)
  forget-IsTracked n g h = record {
    summaries = λ k. ground (
      arith,
      h.summaries k,
      has_key-remove_key {0} n k g.bufs,
      has_key-remove_key {0} n k g.git_summary,
    );
    signs = λ k. ground (
      arith,
      h.signs k,
      has_key-remove_key {0} n k g.bufs,
      has_key-remove_key {0} n k g.git_modifications,
    );
  }

  entered-IsTracked :
      (n : ℕ) (r : GitPlugin × Option Bool) → IsTracked r.0 → IsTracked (entered a n r).0
  entered-IsTracked n (g, none) h = h
  entered-IsTracked n (g, some false) h = h
  entered-IsTracked n (g, some true) h =
      and_then-keeps IsTracked (show_curline_line_blame a n g)
        (update_diff_summary_and_modifications a n) (blame-IsTracked a n g h) (update-IsTracked a n)

  track-IsTracked :
      (n : ℕ) (o : Option (Option Text)) (g : GitPlugin) → IsTracked g → IsTracked (track a n o g).0
  track-IsTracked n none g h = h
  track-IsTracked n (some none) g h = h
  track-IsTracked n (some (some f)) g h = write-IsTracked n f g h

  try_track-IsTracked : (n : ℕ) (g : GitPlugin) → IsTracked g → IsTracked (try_track_buffer a n g).0
  unfolding try_track_buffer
  try_track-IsTracked n g h = elim (Bool-cases (has_key n g.bufs)) [
    | inl e ↦ rw e h
    | inr e ↦ rw e (track-IsTracked n a.tracked_file g h)
  ]

  autocmd-IsTracked :
      (ty : AutocmdEventType) (n : ℕ) (g : GitPlugin)
      → IsTracked g
      → IsTracked (on_autocmd a ty n g).0
  autocmd-IsTracked buf_enter n g h =
      entered-IsTracked n (try_track_buffer a n g) (try_track-IsTracked n g h)
  autocmd-IsTracked buf_write_post n g h = update-IsTracked a n g h
  autocmd-IsTracked buf_delete n g h = forget-IsTracked n g h
  autocmd-IsTracked insert_enter n g h = exec-IsTracked a (clear_blame_info n) g h
  autocmd-IsTracked buf_leave n g h = exec-IsTracked a (clear_blame_info n) g h
  autocmd-IsTracked cursor_moved n g h =
      and_then-keeps IsTracked (show_curline_line_blame a n g) (show_gutter_signs a n)
        (blame-IsTracked a n g h) (gutter-IsTracked a n)
  autocmd-IsTracked buf_new_file n g h = h
  autocmd-IsTracked buf_win_enter n g h = h
  autocmd-IsTracked buf_win_leave n g h = h
  autocmd-IsTracked text_changed n g h = h
  autocmd-IsTracked text_changed_i n g h = h

  clear_all-IsTracked :
      (bufs : List (ℕ × Text)) (g : GitPlugin) → IsTracked g → IsTracked (clear_all a bufs g).0
  clear_all-IsTracked [] g h = h
  clear_all-IsTracked ((n, f) ∷ bufs) g h =
      and_then-keeps IsTracked (exec a (clear_blame_info n) g) _
        (exec-IsTracked a (clear_blame_info n) g h)
        λ g h.
          and_then-keeps IsTracked (exec a (clear_visual_signs n) g) _
            (exec-IsTracked a (clear_visual_signs n) g h) (clear_all-IsTracked bufs)

  show_current-IsTracked :
      (o : Option ℕ) (g : GitPlugin) → IsTracked g → IsTracked (show_current a o g).0
  show_current-IsTracked none g h = h
  show_current-IsTracked (some n) g h = blame-IsTracked a n g h

  toggle-IsTracked : (g : GitPlugin) → IsTracked g → IsTracked (toggle a g).0
  unfolding toggle
  toggle-IsTracked g h =
      and_then-keeps IsTracked
        (if g.is_on then clear_all a g.bufs g else show_current a a.current_bufnr g) (switch a)
        (chosen IsTracked g.is_on _ _ (clear_all-IsTracked g.bufs g h)
          (show_current-IsTracked a.current_bufnr g h))
        (λ g h. record { summaries = h.summaries; signs = h.signs })

  track_current-IsTracked :
      (o : Option ℕ) (file : Option (Option Text)) (g : GitPlugin)
      → IsTracked g
      → IsTracked (track_current a o file g).0
  track_current-IsTracked none file g h = h
  track_current-IsTracked (some n) none g h = h
  track_current-IsTracked (some n) (some none) g h = h
  track_current-IsTracked (some n) (some (some f)) g h =
      update_modifications-IsTracked a n (record g { bufs = write_at n f g.bufs })
        (write-IsTracked n f g h)

take_step-IsTracked : (s : PluginStep) (g : GitPlugin) → IsTracked g → IsTracked (take_step s g)
unfolding take_step handle_autocmd hunk_modifications
take_step-IsTracked (autocmd ty n a) g h =
    chosen IsTracked g.is_on _ _ (autocmd-IsTracked a ty n g h) h
take_step-IsTracked (toggled a) g h = toggle-IsTracked a g h
take_step-IsTracked (hunks_asked a) g h = track_current-IsTracked a a.current_bufnr a.repo_file g h

run_on-IsTracked : (ss : List PluginStep) (g : GitPlugin) → IsTracked g → IsTracked (run_steps ss g)
unfolding run_steps
run_on-IsTracked [] g h = h
run_on-IsTracked (s ∷ ss) g h = run_on-IsTracked ss (take_step s g) (take_step-IsTracked s g h)

-- Along any events of the editor and actions of the user, whatever Vim and git answer, errors in the
-- middle of a handler included: the plugin keeps a summary or signs only for a buffer that is in its
-- `bufs`.
pub run_steps-IsTracked : (ss : List PluginStep) → IsTracked (run_steps ss new_plugin)
run_steps-IsTracked ss =
    run_on-IsTracked ss new_plugin (record { summaries = λ k. refl; signs = λ k. refl })

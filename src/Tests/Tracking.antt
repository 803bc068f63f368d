-- ===== src/Tests/Tracking.antt =====
-- A buffer that the git plugin tracks, its signs, and what is left when it is deleted.
use vim_clap.Common.{none, ◌≡◌, refl, true, some, List, [], ◌∷◌}
use vim_clap.Common.Table.{has_key}
use vim_clap.Text.{codes}
use vim_clap.Input.{buf_enter, cursor_moved, buf_delete}
use vim_clap.Git.{Hunk}
use vim_clap.Git.Plugin.{Answers}
use vim_clap.Git.Plugin.Kept.{IsTracked}
use vim_clap.Git.Plugin.Tracked.{
  PluginStep, autocmd, toggled, run_steps, new_plugin, run_steps-IsTracked,
}

-- One line is added after line 4.
abbrev added_line : Hunk
added_line = record { old_start = 4; old_count = 0; new_start = 5; new_count = 1 }

abbrev answers : Answers
answers = record {
  tracked_file = some (some (codes "/a.rs"));
  repo_file = some (some (codes "/a.rs"));
  hunks = λ file. some (added_line ∷ []);
  screen = some (1, 40);
  current_bufnr = some 1;
  executes = true;
  blame_info = some (some (codes "you"));
  branch = some none;
}

abbrev events : List PluginStep
events =
    autocmd buf_enter 1 answers
    ∷ autocmd cursor_moved 1 answers
    ∷ toggled answers
    ∷ toggled answers
    ∷ []

tracked_then_deleted :
    (has_key 1 (run_steps events new_plugin).git_modifications ≡ true)
    × ((run_steps
          (autocmd buf_delete 1 answers ∷ [])
          (run_steps events new_plugin)).git_modifications
        ≡ [])
unfolding run_steps
tracked_then_deleted = (refl, refl)

run_steps-IsTracked_example : IsTracked (run_steps events new_plugin)
run_steps-IsTracked_example = run_steps-IsTracked events

-- ===== src/Git/Plugin.antt =====
-- crates/maple_core/src/stdio_server/plugin/git.rs: the buffers that the plugin tracks, their summaries and
-- the signs beside their lines. What Vim and git answer during an event is a parameter.
pub mod Events
pub mod Kept
pub mod Tracked
use native.Mathlib.Decide.{ℕ_discrete}
use vim_clap.Common.Outcomes.{and_then}
use vim_clap.Common.{
  ℕ, ◌+◌, Bool, true, false, not, ◌&&◌, ◌==◌, Option, none, some, List, [], ◌∷◌, ◌++◌, map, filter,
  any, if◌then◌else◌, is_empty,
}
use vim_clap.Common.Table.{value_at, has_key, write_at, remove_key}
use vim_clap.Text.{Text}
use vim_clap.Git.{
  Summary, Modification, SignType, Range, range, Hunk, signs_in_range, get_diff_summary,
  hunks_to_modifications,
}

abbrev pub Sign : Type 0
Sign = ℕ × SignType

pub record ModificationState : Type 0 where
  pub modifications : List Modification
  pub current_signs : List Sign

-- What is executed in Vim.
pub data GitCall : Type 0 where
  set_summary_var : ℕ → Summary → GitCall
  clear_visual_signs clear_blame_info : ℕ → GitCall
  show_cursor_blame_info set_branch_var : ℕ → Text → GitCall
  refresh_visual_signs add_visual_signs : ℕ → List Sign → GitCall

pub record GitPlugin : Type 0 where
  pub bufs : List (ℕ × Text)
  pub git_summary : List (ℕ × Summary)
  pub git_modifications : List (ℕ × ModificationState)
  pub is_on : Bool
  pub calls : List GitCall

-- The answers during one event; the outer `none` is an error. `tracked_file`: the path of the current
-- buffer, if it is tracked by git; `repo_file`: if it is in a repository; `hunks`: the diff of a file;
-- `screen`: the lines in view; `blame_info`: the blame of the line at the cursor; `branch`: the branch, if
-- the file belongs to its repository; `executes`: whether Vim executes what it is told.
pub record Answers : Type 0 where
  pub tracked_file : Option (Option Text)
  pub repo_file : Option (Option Text)
  pub hunks : Text → Option (List Hunk)
  pub screen : Option (ℕ × ℕ)
  pub current_bufnr : Option ℕ
  pub executes : Bool
  pub blame_info : Option (Option Text)
  pub branch : Option (Option Text)

-- The state after a handler, and whether it succeeded. An error and a panic leave what was changed before.
abbrev pub Result : Type 0
Result = GitPlugin × Bool

abbrev pub call : GitCall → GitPlugin → GitPlugin
call c g = record g { calls = g.calls ++ c ∷ [] }

unfoldable pub Summary_discrete : Discrete Summary
Summary_discrete = hlevel (ℕ_discrete)

unfoldable pub Modifications_discrete : Discrete (List Modification)
Modifications_discrete = hlevel (ℕ_discrete)

unfoldable pub Signs_discrete : Discrete (List Sign)
Signs_discrete = hlevel (ℕ_discrete)

unfoldable pub Sign_discrete : Discrete Sign
Sign_discrete = hlevel (ℕ_discrete)

-- The derived `PartialEq`.
abbrev pub is_same {ℓ} : {A : Type ℓ} → Discrete A → A → A → Bool
is_same d a b = elim (d a b) [ yes p ↦ true | no p ↦ false ]

abbrev pub signs_on_screen : ℕ × ℕ → List Modification → List Sign
signs_on_screen (line_start, line_end) [] = []
signs_on_screen (line_start, line_end) (m ∷ ms) =
    signs_in_range m (range line_start (line_end + 1)) ++ signs_on_screen (line_start, line_end) ms

abbrev pub same_summary : Option Summary → Summary → Bool
same_summary none diff_summary = false
same_summary (some old) diff_summary = is_same Summary_discrete diff_summary old

-- What Vim answers to the call does not matter.
unfoldable pub do_update_summary_state : ℕ → Summary → GitPlugin → GitPlugin
unfolding Summary_discrete
do_update_summary_state bufnr diff_summary g =
    if same_summary (value_at bufnr g.git_summary) diff_summary
    then g
    else record (call (set_summary_var bufnr diff_summary) g) {
      git_summary = write_at bufnr diff_summary g.git_summary;
    }

abbrev pub same_state : Option ModificationState → List Modification → List Sign → Bool
same_state none modifications signs = false
same_state (some old) modifications signs =
    is_same Modifications_discrete modifications old.modifications
    && is_same Signs_discrete signs old.current_signs

module _ (a : Answers) where
  -- `vim.exec(..)?`
  abbrev pub exec : GitCall → GitPlugin → Result
  exec c g = if a.executes then (call c g, true) else (g, false)

  abbrev pub signs_call : ℕ → List Sign → GitCall
  signs_call bufnr signs =
      if is_empty signs then clear_visual_signs bufnr else refresh_visual_signs bufnr signs

  abbrev pub store_signs : ℕ → List Modification → List Sign → GitPlugin → Result
  store_signs bufnr modifications signs g = (
    record g {
      git_modifications =
          write_at bufnr (record { modifications = modifications; current_signs = signs })
            g.git_modifications;
    },
    true,
  )

  abbrev pub update_signs : ℕ → List Modification → List Sign → GitPlugin → Result
  update_signs bufnr modifications signs g =
      if same_state (value_at bufnr g.git_modifications) modifications signs
      then (g, true)
      else and_then (exec (signs_call bufnr signs) g) (store_signs bufnr modifications signs)

  unfoldable pub do_update_diff_modifications_state : ℕ → List Modification → GitPlugin → Result
  unfolding signs_in_range Modifications_discrete Signs_discrete
  do_update_diff_modifications_state bufnr modifications g = elim (a.screen) [
    | none ↦ (g, false)
    | some lines ↦ update_signs bufnr modifications (signs_on_screen lines modifications) g
  ]

  abbrev pub update_both : ℕ → Option Summary → Option (List Modification) → GitPlugin → Result
  update_both bufnr (some summary) (some modifications) g =
      do_update_diff_modifications_state bufnr modifications
        (do_update_summary_state bufnr summary g)
  update_both bufnr (some summary) none g = (g, false)
  update_both bufnr none modifications g = (g, false)

  abbrev pub update_from : ℕ → Option (List Hunk) → GitPlugin → Result
  update_from bufnr none g = (g, false)
  update_from bufnr (some hunks) g =
      update_both bufnr (get_diff_summary hunks) (hunks_to_modifications hunks) g

  abbrev pub update_file : ℕ → Option Text → GitPlugin → Result
  update_file bufnr none g = (g, true)
  update_file bufnr (some filepath) g = update_from bufnr (a.hunks filepath) g

  unfoldable pub update_diff_summary_and_modifications : ℕ → GitPlugin → Result
  unfolding get_diff_summary hunks_to_modifications do_update_diff_modifications_state
      do_update_summary_state
  update_diff_summary_and_modifications bufnr g = update_file bufnr (value_at bufnr g.bufs) g

  abbrev pub modifications_from : ℕ → Option (List Hunk) → GitPlugin → Result
  modifications_from bufnr none g = (g, false)
  modifications_from bufnr (some hunks) g = elim (hunks_to_modifications hunks) [
    | none ↦ (g, false)
    | some modifications ↦ do_update_diff_modifications_state bufnr modifications g
  ]

  abbrev pub modifications_file : ℕ → Option Text → GitPlugin → Result
  modifications_file bufnr none g = (g, true)
  modifications_file bufnr (some filepath) g = modifications_from bufnr (a.hunks filepath) g

  unfoldable pub update_diff_modifications : ℕ → GitPlugin → Result
  unfolding hunks_to_modifications do_update_diff_modifications_state
  update_diff_modifications bufnr g = modifications_file bufnr (value_at bufnr g.bufs) g

  abbrev pub missing_signs : List Sign → List Sign → List Sign
  missing_signs new_signs old_signs =
      filter (λ new. not (any (is_same (Sign_discrete) new) old_signs)) new_signs

  abbrev pub show_signs : ℕ → Option ModificationState → Option (ℕ × ℕ) → GitPlugin → Result
  show_signs bufnr none screen g = (g, true)
  show_signs bufnr (some diff_state) none g = (g, false)
  show_signs bufnr (some diff_state) (some lines) g =
      let new_signs = signs_on_screen lines diff_state.modifications in
      and_then (exec (add_visual_signs bufnr (missing_signs new_signs diff_state.current_signs)) g)
        (store_signs bufnr diff_state.modifications new_signs)

  -- Only new signs are added.
  unfoldable pub show_gutter_signs : ℕ → GitPlugin → Result
  unfolding signs_in_range Sign_discrete
  show_gutter_signs bufnr g = show_signs bufnr (value_at bufnr g.git_modifications) a.screen g

  abbrev pub show_info : ℕ → Option (Option Text) → GitPlugin → Result
  show_info bufnr none g = (g, false)
  show_info bufnr (some none) g = (g, true)
  show_info bufnr (some (some info)) g = exec (show_cursor_blame_info bufnr info) g

  abbrev pub show_branch : ℕ → Option (Option Text) → GitPlugin → Result
  show_branch bufnr none g = (g, false)
  show_branch bufnr (some none) g = (g, true)
  show_branch bufnr (some (some branch)) g = exec (set_branch_var bufnr branch) g

  abbrev pub show_curline_line_blame : ℕ → GitPlugin → Result
  show_curline_line_blame bufnr g =
      if has_key bufnr g.bufs
      then and_then (show_info bufnr a.blame_info g) (show_branch bufnr a.branch)
      else (g, true)

-- ===== src/Git/Plugin/Kept.antt =====
-- What the updates of signs and summaries keep: crates/maple_core/src/stdio_server/plugin/git.rs.
use vim_clap.Common.Outcomes.{and_then-keeps, chosen}
use vim_clap.Common.{
  ℕ, ◌≡◌, true, not, ◌||◌, Option, none, some, List, [], ◌∷◌, arith, Bool-cases, Option-cases, inl,
  inr,
}
use vim_clap.Common.Table.{value_at, has_key, has_key-write_at}
use vim_clap.Text.{Text}
use vim_clap.Git.{Summary, Modification, Hunk, get_diff_summary, hunks_to_modifications}
use vim_clap.Git.Plugin.{
  set_branch_var, show_cursor_blame_info, show_info, show_branch, GitPlugin, ModificationState,
  Answers, GitCall, Sign, call, same_summary, same_state, do_update_summary_state, exec, signs_call,
  store_signs, update_signs, do_update_diff_modifications_state, update_both, update_from,
  update_diff_summary_and_modifications, modifications_from, update_diff_modifications, show_signs,
  show_gutter_signs, show_curline_line_blame, signs_on_screen,
}

-- A summary or signs are kept only for a buffer that is tracked.
pub record IsTracked (g : GitPlugin) : Type 0 where
  pub summaries : (k : ℕ) → (not (has_key k g.git_summary) || has_key k g.bufs) ≡ true
  pub signs : (k : ℕ) → (not (has_key k g.git_modifications) || has_key k g.bufs) ≡ true

-- The buffer is tracked, too.
record IsTrackedAt (n : ℕ) (g : GitPlugin) : Type 0 where
  tracked : IsTracked g
  here : has_key n g.bufs ≡ true

has_key-value_at :
    (k : ℕ) (m : List (ℕ × Text)) (v : Text) → value_at k m ≡ some v → has_key k m ≡ true
has_key-value_at k [] v h = ground arith
has_key-value_at k ((j, w) ∷ m) v h = ground (arith, has_key-value_at k m v)

value_key :
    (k : ℕ) (m : List (ℕ × ModificationState)) (v : ModificationState)
    → value_at k m ≡ some v
    → has_key k m ≡ true
value_key k [] v h = ground arith
value_key k ((j, w) ∷ m) v h = ground (arith, value_key k m v)

call-IsTrackedAt :
    (n : ℕ) (c : GitCall) (g : GitPlugin) → IsTrackedAt n g → IsTrackedAt n (call c g)
call-IsTrackedAt n c g h = record {
  tracked = record { summaries = h.tracked.summaries; signs = h.tracked.signs };
  here = h.here;
}

call-IsTracked : (c : GitCall) (g : GitPlugin) → IsTracked g → IsTracked (call c g)
call-IsTracked c g h = record { summaries = h.summaries; signs = h.signs }

summary-IsTrackedAt :
    (n : ℕ) (s : Summary) (g : GitPlugin)
    → IsTrackedAt n g
    → IsTrackedAt n (do_update_summary_state n s g)
unfolding do_update_summary_state
summary-IsTrackedAt n s g h = elim (Bool-cases (same_summary (value_at n g.git_summary) s)) [
  | inl e ↦ rw e h
  | inr e ↦ rw e (record {
    tracked = record {
      summaries = λ k.
          ground (arith, h.tracked.summaries k, h.here, has_key-write_at {0} n k s g.git_summary);
      signs = h.tracked.signs;
    };
    here = h.here;
  })
]

module _ (a : Answers) where
  pub exec-IsTracked : (c : GitCall) (g : GitPlugin) → IsTracked g → IsTracked (exec a c g).0
  exec-IsTracked c g h = chosen IsTracked a.executes _ _ (call-IsTracked c g h) h

  exec-IsTrackedAt :
      (n : ℕ) (c : GitCall) (g : GitPlugin) → IsTrackedAt n g → IsTrackedAt n (exec a c g).0
  exec-IsTrackedAt n c g h = chosen (IsTrackedAt n) a.executes _ _ (call-IsTrackedAt n c g h) h

  store-IsTrackedAt :
      (n : ℕ) (ms : List Modification) (ss : List Sign) (g : GitPlugin)
      → IsTrackedAt n g
      → IsTrackedAt n (store_signs a n ms ss g).0
  store-IsTrackedAt n ms ss g h = record {
    tracked = record {
      summaries = h.tracked.summaries;
      signs = λ k. ground (
        arith,
        h.tracked.signs k,
        h.here,
        has_key-write_at {0} n k (record { modifications = ms; current_signs = ss })
            g.git_modifications,
      );
    };
    here = h.here;
  }

  update_signs-IsTrackedAt :
      (n : ℕ) (ms : List Modification) (ss : List Sign) (g : GitPlugin)
      → IsTrackedAt n g
      → IsTrackedAt n (update_signs a n ms ss g).0
  update_signs-IsTrackedAt n ms ss g h =
      chosen (IsTrackedAt n) (same_state (value_at n g.git_modifications) ms ss) _ _ h (
        and_then-keeps (IsTrackedAt n) (exec a (signs_call a n ss) g) (store_signs a n ms ss)
          (exec-IsTrackedAt n (signs_call a n ss) g h) (store-IsTrackedAt n ms ss))

  do_update-IsTrackedAt :
      (n : ℕ) (ms : List Modification) (g : GitPlugin)
      → IsTrackedAt n g
      → IsTrackedAt n (do_update_diff_modifications_state a n ms g).0
  unfolding do_update_diff_modifications_state
  do_update-IsTrackedAt n ms g h = elim (Option-cases a.screen) [
    | inl e ↦ rw e h
    | inr (lines, e) ↦ rw e (update_signs-IsTrackedAt n ms (signs_on_screen lines ms) g h)
  ]

  update_both-IsTrackedAt :
      (n : ℕ) (s : Option Summary) (ms : Option (List Modification)) (g : GitPlugin)
      → IsTrackedAt n g
      → IsTrackedAt n (update_both a n s ms g).0
  update_both-IsTrackedAt n (some s) (some ms) g h =
      do_update-IsTrackedAt n ms (do_update_summary_state n s g) (summary-IsTrackedAt n s g h)
  update_both-IsTrackedAt n (some s) none g h = h
  update_both-IsTrackedAt n none ms g h = h

  update_from-IsTrackedAt :
      (n : ℕ) (hunks : Option (List Hunk)) (g : GitPlugin)
      → IsTrackedAt n g
      → IsTrackedAt n (update_from a n hunks g).0
  update_from-IsTrackedAt n none g h = h
  update_from-IsTrackedAt n (some hunks) g h =
      update_both-IsTrackedAt n (get_diff_summary hunks) (hunks_to_modifications hunks) g h

  pub update-IsTracked :
      (n : ℕ) (g : GitPlugin)
      → IsTracked g
      → IsTracked (update_diff_summary_and_modifications a n g).0
  unfolding update_diff_summary_and_modifications
  update-IsTracked n g h = elim (Option-cases (value_at n g.bufs)) [
    | inl e ↦ rw e h
    | inr (f, e) ↦
        rw e
          (update_from-IsTrackedAt n (a.hunks f) g
            (record { tracked = h; here = has_key-value_at n g.bufs f e })).tracked
  ]

  modifications_from-IsTrackedAt :
      (n : ℕ) (hunks : Option (List Hunk)) (g : GitPlugin)
      → IsTrackedAt n g
      → IsTrackedAt n (modifications_from a n hunks g).0
  modifications_from-IsTrackedAt n none g h = h
  modifications_from-IsTrackedAt n (some hunks) g h =
      elim (Option-cases (hunks_to_modifications hunks)) [
        | inl e ↦ rw (modifications_from, e) h
        | inr (ms, e) ↦ rw (modifications_from, e) (do_update-IsTrackedAt n ms g h)
      ]

  pub update_modifications-IsTracked :
      (n : ℕ) (g : GitPlugin) → IsTracked g → IsTracked (update_diff_modifications a n g).0
  unfolding update_diff_modifications
  update_modifications-IsTracked n g h = elim (Option-cases (value_at n g.bufs)) [
    | inl e ↦ rw e h
    | inr (f, e) ↦
        rw e
          (modifications_from-IsTrackedAt n (a.hunks f) g
            (record { tracked = h; here = has_key-value_at n g.bufs f e })).tracked
  ]

  info-IsTracked :
      (n : ℕ) (o : Option (Option Text)) (g : GitPlugin)
      → IsTracked g
      → IsTracked (show_info a n o g).0
  info-IsTracked n none g h = h
  info-IsTracked n (some none) g h = h
  info-IsTracked n (some (some t)) g h = exec-IsTracked (show_cursor_blame_info n t) g h

  branch-IsTracked :
      (n : ℕ) (o : Option (Option Text)) (g : GitPlugin)
      → IsTracked g
      → IsTracked (show_branch a n o g).0
  branch-IsTracked n none g h = h
  branch-IsTracked n (some none) g h = h
  branch-IsTracked n (some (some t)) g h = exec-IsTracked (set_branch_var n t) g h

  pub blame-IsTracked :
      (n : ℕ) (g : GitPlugin) → IsTracked g → IsTracked (show_curline_line_blame a n g).0
  blame-IsTracked n g h =
      chosen IsTracked (has_key n g.bufs) _ _
        (and_then-keeps IsTracked (show_info a n a.blame_info g) (show_branch a n a.branch)
          (info-IsTracked n a.blame_info g h) (branch-IsTracked n a.branch))
        h

  show_signs-IsTracked :
      (n : ℕ) (d : ModificationState) (screen : Option (ℕ × ℕ)) (g : GitPlugin)
      → IsTrackedAt n g
      → IsTracked (show_signs a n (some d) screen g).0
  show_signs-IsTracked n d none g h = h.tracked
  show_signs-IsTracked n d (some lines) g h =
      (and_then-keeps (IsTrackedAt n) (exec a _ g)
        (store_signs a n d.modifications (signs_on_screen lines d.modifications))
        (exec-IsTrackedAt n _ g h)
        (store-IsTrackedAt n d.modifications (signs_on_screen lines d.modifications))).tracked

  pub gutter-IsTracked :
      (n : ℕ) (g : GitPlugin) → IsTracked g → IsTracked (show_gutter_signs a n g).0
  unfolding show_gutter_signs
  gutter-IsTracked n g h = elim (Option-cases (value_at n g.git_modifications)) [
    | inl e ↦ rw e h
    | inr (d, e) ↦ rw e (
        show_signs-IsTracked n d a.screen g (record {
          tracked = h;
          here = ground (arith, h.signs n, value_key n g.git_modifications d e);
        }))
  ]

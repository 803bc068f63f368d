-- ===== src/Ctags.antt =====
-- crates/maple_core/src/stdio_server/plugin/ctags.rs: the symbol at the cursor. `search` is
-- `binary_search_by_key` on the lines of the tags; what Vim and ctags answer during one event is a parameter.
pub mod Nearest
pub mod Fits
use mathlib.Core.List
use native.Mathlib.Decide.{ℕ_discrete}
use vim_clap.Common.Outcomes.{and_then}
use vim_clap.Common.{
  ℕ, zero, suc, ◌+◌, ◌-◌, ◌*◌, ◌/◌, Bool, true, false, not, ◌&&◌, Option, none, some, List, [], ◌∷◌,
  ◌++◌, map, if◌then◌else◌, ltb, take, drop, get_elem?, ◌⊎◌, inl, inr,
}
use vim_clap.Common.Table.{value_at, write_at, remove_key}
use vim_clap.Text.{Text, byte_len}
use vim_clap.Input.{AutocmdEventType, buf_enter, buf_write_post, buf_delete, cursor_moved}

pub record Scope : Type 0 where
  pub scope : Text
  pub scope_kind : Text

pub record BufferTag : Type 0 where
  pub name : Text
  pub pattern : Text
  pub line_number : ℕ
  pub kind : Text
  pub scope : Option Scope

unfoldable pub BufferTag_discrete : Discrete BufferTag
BufferTag_discrete = hlevel (ℕ_discrete)

pub data TagCall : Type 0 where
  set_current_symbol update_winbar : ℕ → Option BufferTag → TagCall
  redraw_status : TagCall

pub record CtagsPlugin : Type 0 where
  pub enable_winbar : Option Bool
  pub last_cursor_tag : Option BufferTag
  pub buf_tags : List (ℕ × List BufferTag)
  pub calls : List TagCall

-- `succeeds`: whether a call of Vim does; `file_tags`: an error, no tags for a file that does not exist or is
-- too large, or the tags of the file.
pub record Answers : Type 0 where
  pub succeeds : TagCall → Bool
  pub is_nvim : Bool
  pub curlnum : Option ℕ
  pub file_tags : Option (Option (List BufferTag))

-- The state, and whether the handler succeeded.
abbrev pub Result : Type 0
Result = CtagsPlugin × Bool

-- The derived `PartialEq`.
unfoldable pub same_tag : Option BufferTag → BufferTag → Bool
unfolding BufferTag_discrete
same_tag none tag = false
same_tag (some last_cursor_tag) tag = elim (BufferTag_discrete last_cursor_tag tag) [
  | yes p ↦ true
  | no p ↦ false
]

-- The tag in front of the place where a new tag would stand.
abbrev pub cursor_index : ℕ ⊎ ℕ → Option ℕ
cursor_index (inl idx) = some idx
cursor_index (inr zero) = none
cursor_index (inr (suc idx)) = some idx

-- The path in the bar of a window; its length is that of its bytes.
unfoldable pub shrink_text_to_fit : Text → ℕ → Text
unfolding byte_len
shrink_text_to_fit path max_width =
    let to_shrink_len = byte_len path - max_width in
    let left = take (max_width / 2) path in
    let right = drop (max_width / 2 + 1 + to_shrink_len) path in
    if ltb (byte_len path) max_width then path else left ++ 0x2026 ∷ right

module _ (search : List ℕ → ℕ → ℕ ⊎ ℕ) where
  unfoldable pub cursor_tag : List BufferTag → ℕ → Option BufferTag
  cursor_tag buffer_tags curlnum =
      elim (cursor_index (search (map (λ t. t.line_number) buffer_tags) curlnum)) [
        | none ↦ none
        | some idx ↦ get_elem? buffer_tags idx
      ]

  module _ (a : Answers) where
    abbrev pub tell : TagCall → CtagsPlugin → Result
    tell c g = if a.succeeds c then (record g { calls = g.calls ++ c ∷ [] }, true) else (g, false)

    abbrev pub tell_winbar : Bool → ℕ → Option BufferTag → CtagsPlugin → Result
    tell_winbar winbar_enabled bufnr tag g =
        if winbar_enabled then tell (update_winbar bufnr tag) g else (g, true)

    abbrev pub reset_winbar : Bool → ℕ → Option BufferTag → CtagsPlugin → Result
    reset_winbar winbar_enabled bufnr none g = (g, true)
    reset_winbar winbar_enabled bufnr (some tag) g =
        if winbar_enabled
        then and_then (tell (update_winbar bufnr none) g) (tell redraw_status)
        else (g, true)

    abbrev pub on_no_symbol_found : ℕ → Bool → CtagsPlugin → Result
    on_no_symbol_found bufnr winbar_enabled g =
        and_then (tell (set_current_symbol bufnr none) g) λ g.
          reset_winbar winbar_enabled bufnr g.last_cursor_tag (record g { last_cursor_tag = none })

    abbrev pub remember_tag : BufferTag → CtagsPlugin → Result
    remember_tag tag g = (record g { last_cursor_tag = some tag }, true)

    abbrev pub show_tag : ℕ → Bool → BufferTag → CtagsPlugin → Result
    show_tag bufnr winbar_enabled tag g =
        and_then (tell (set_current_symbol bufnr (some tag)) g) λ g.
          and_then (tell_winbar winbar_enabled bufnr (some tag) g)
            λ g. and_then (tell redraw_status g) (remember_tag tag)

    abbrev pub update_symbol : ℕ → Bool → Option BufferTag → CtagsPlugin → Result
    update_symbol bufnr winbar_enabled none g = on_no_symbol_found bufnr winbar_enabled g
    update_symbol bufnr winbar_enabled (some tag) g =
        if same_tag g.last_cursor_tag tag then (g, true) else show_tag bufnr winbar_enabled tag g

    -- Whether there is a bar is asked for once.
    abbrev pub winbar_enabled_of : Option Bool → Bool
    winbar_enabled_of none = a.is_nvim
    winbar_enabled_of (some x) = x

    abbrev pub move_in : ℕ → List BufferTag → CtagsPlugin → Option ℕ → Result
    move_in bufnr buffer_tags g none = (g, false)
    move_in bufnr buffer_tags g (some curlnum) =
        update_symbol bufnr (winbar_enabled_of g.enable_winbar) (cursor_tag buffer_tags curlnum) g

    abbrev pub move_with : ℕ → Option (List BufferTag) → CtagsPlugin → Result
    move_with bufnr none g = (g, true)
    move_with bufnr (some buffer_tags) g =
        move_in bufnr buffer_tags
          (record g { enable_winbar = some (winbar_enabled_of g.enable_winbar) }) a.curlnum

    unfoldable pub on_cursor_moved : ℕ → CtagsPlugin → Result
    unfolding cursor_tag same_tag
    on_cursor_moved bufnr g = move_with bufnr (value_at bufnr g.buf_tags) g

    abbrev pub refresh_tags : ℕ → Option (Option (List BufferTag)) → CtagsPlugin → Result
    refresh_tags bufnr none g = (g, false)
    refresh_tags bufnr (some none) g = (g, true)
    refresh_tags bufnr (some (some buffer_tags)) g =
        on_cursor_moved bufnr (record g { buf_tags = write_at bufnr buffer_tags g.buf_tags })

    -- `handle_autocmd`; any other event is an error.
    unfoldable pub on_tag_event : AutocmdEventType → ℕ → CtagsPlugin → Result
    unfolding on_cursor_moved
    on_tag_event buf_enter bufnr g = refresh_tags bufnr a.file_tags g
    on_tag_event buf_write_post bufnr g = refresh_tags bufnr a.file_tags g
    on_tag_event buf_delete bufnr g = (record g { buf_tags = remove_key bufnr g.buf_tags }, true)
    on_tag_event cursor_moved bufnr g = on_cursor_moved bufnr g
    on_tag_event other bufnr g = (g, false)

-- ===== src/Printer.antt =====
-- crates/printer/src/lib.rs and crates/printer/src/truncation.rs: the lines that are displayed, cut to the
-- window, with the full text of those that are cut.
pub mod Full
use vim_clap.Common.{
  ℕ, zero, suc, ◌+◌, ◌-◌, ◌==◌, Bool, true, false, not, Option, none, some, List, [], ◌∷◌, ◌++◌,
  map, if◌then◌else◌, ltb, length, filter, take, get_elem?, is_empty,
}
use vim_clap.Common.Options.{◌>>=◌}
use vim_clap.Text.{Text, byte_len, slice_to, slice_from}
use vim_clap.Types.SourceItem.{MatchedItem, display_text_of, output_text_of, shifted_indices}
use vim_clap.Utils.{char_indices_to_byte_indices}
use vim_clap.Trimmer.{
  Trim, untrimmed, trimmed, panicked, TrimmedText, trim_text, sub_usize, add_usize, byte_of_char,
}

-- `LinesTruncatedMap`: the line numbers count from 1.
abbrev pub LinesTruncatedMap : Type 0
LinesTruncatedMap = List (ℕ × Text)

unfoldable pub full_line : ℕ → LinesTruncatedMap → Option Text
full_line lnum [] = none
full_line lnum ((n, t) ∷ rest) =
    let others = full_line lnum rest in if lnum == n then some t else others

pub record DisplayLines : Type 0 where
  pub lines : List Text
  pub indices : List (List ℕ)
  pub truncated_map : LinesTruncatedMap
  pub icon_added : Bool

-- `none` is the panic of an index out of bounds.
unfoldable pub get_line : DisplayLines → ℕ → Option Text
unfolding full_line
get_line d zero = full_line 0 d.truncated_map
get_line d (suc n) = elim (full_line (suc n) d.truncated_map) [
  | some t ↦ some t
  | none ↦ get_elem? d.lines n
]

abbrev pub max_line_len : ℕ
max_line_len = 500

-- A text is trimmed behind the skipped chars.
abbrev pub rejoin : Text → ℕ → Trim → Trim
rejoin text_skipped skipped untrimmed = untrimmed
rejoin text_skipped skipped panicked = panicked
rejoin text_skipped skipped (trimmed t) = trimmed (record t {
  trimmed_text = text_skipped ++ t.trimmed_text;
  indices = map (λ x. add_usize x skipped) t.indices;
})

abbrev pub skipped_or_offset : Option ℕ → Option ℕ → Option ℕ
skipped_or_offset none offset = offset
skipped_or_offset (some n) offset = some n

module _ {I : Type 0} where
  -- What the loop does with one item: the item, and the full text where it is trimmed.
  unfoldable pub truncate_long : Text → MatchedItem I → MatchedItem I
  truncate_long text m = record m {
    display_text = some (take 1000 text);
    indices = filter (λ x. ltb x 1000) m.indices;
  }

  abbrev pub truncated_as : Text → MatchedItem I → Trim → Option (MatchedItem I × Bool)
  truncated_as text m untrimmed = some (record m { display_text = some text }, false)
  truncated_as text m (trimmed t) =
      some (record m { display_text = some t.trimmed_text; indices = t.indices }, true)
  truncated_as text m panicked = none

module _ (char_width : ℕ → Option ℕ) where
  -- The slices of `split_at` are those of a char's position, so that `none` does not arise.
  unfoldable pub truncate_skipped : Text → List ℕ → ℕ → ℕ → ℕ → Trim
  unfolding trim_text sub_usize slice_to slice_from
  truncate_skipped line indices winwidth skipped byte_idx = elim (slice_to line byte_idx) [
    | none ↦ panicked
    | some text_skipped ↦ elim (slice_from line byte_idx) [
      | none ↦ panicked
      | some text_to_trim ↦ rejoin text_skipped skipped (
          trim_text char_width 4 text_to_trim (map (λ x. sub_usize x skipped) indices)
            (sub_usize winwidth skipped))
    ]
  ]

  -- The indices of the caller are shifted and shifted back, and so left as they are.
  unfoldable pub truncate_line_v1 : Text → List ℕ → ℕ → Option ℕ → Trim
  unfolding truncate_skipped byte_of_char trim_text
  truncate_line_v1 line [] winwidth skipped_chars = untrimmed
  truncate_line_v1 [] (i ∷ indices) winwidth skipped_chars = untrimmed
  truncate_line_v1 (c ∷ line) (i ∷ indices) winwidth none =
      trim_text char_width 4 (c ∷ line) (i ∷ indices) winwidth
  truncate_line_v1 (c ∷ line) (i ∷ indices) winwidth (some skipped) =
      elim (byte_of_char (c ∷ line) skipped) [
        | none ↦ untrimmed
        | some byte_idx ↦ truncate_skipped (c ∷ line) (i ∷ indices) winwidth skipped byte_idx
      ]

  module _ {I : Type 0} (output_text : I → Text) (truncation_offset : I → Option ℕ) where
    unfoldable pub truncate_item : ℕ → Option ℕ → MatchedItem I → Option (MatchedItem I × Bool)
    unfolding truncate_long truncate_line_v1 output_text_of byte_len
    truncate_item winwidth skipped_chars m =
        let text = output_text_of output_text m in
        let cut =
          truncate_line_v1 text m.indices winwidth
            (skipped_or_offset skipped_chars (truncation_offset m.item)) in
        if ltb max_line_len (byte_len text)
        then some (truncate_long text m, false)
        else truncated_as text m cut

    -- The loop, from a line number on.
    unfoldable pub truncate_items :
        ℕ → ℕ → Option ℕ → List (MatchedItem I) → Option (List (MatchedItem I) × LinesTruncatedMap)
    unfolding truncate_item output_text_of
    truncate_items lnum winwidth skipped_chars [] = some ([], [])
    truncate_items lnum winwidth skipped_chars (m ∷ ms) = do
      (m', is_cut) ← truncate_item winwidth skipped_chars m
      (ms', rest) ← truncate_items (suc lnum) winwidth skipped_chars ms
      some (m' ∷ ms', if is_cut then (suc lnum, output_text_of output_text m) ∷ rest else rest)

    unfoldable pub truncate_item_output_text :
        ℕ → Option ℕ → List (MatchedItem I) → Option (List (MatchedItem I) × LinesTruncatedMap)
    unfolding truncate_items
    truncate_item_output_text winwidth skipped_chars ms = truncate_items 0 winwidth skipped_chars ms

-- `Icon`, without the kind of an icon that is enabled.
pub data Icon : Type 0 where
  no_icon enabled of_item : Icon

-- Writing through `truncated_map.get_mut`.
unfoldable pub prepend_full : ℕ → Text → LinesTruncatedMap → LinesTruncatedMap
prepend_full lnum icon [] = []
prepend_full lnum icon ((n, t) ∷ rest) =
    let others = (n, t) ∷ prepend_full lnum icon rest in
    if lnum == n then (n, icon ++ t) ∷ rest else others

-- What the crate `icon` chooses: `add_icon_to_text`, and the icon of an item.
pub record Icons (I : Type 0) : Type 0 where
  pub add_icon_to_text : Text → Text
  pub icon : I → Option ℕ

pub record Converted : Type 0 where
  pub line : Text
  pub indices : List ℕ
  pub truncated_map : LinesTruncatedMap

abbrev pub icon_char_len : ℕ
icon_char_len = 2

module _ {I : Type 0} (icons : Icons I) (output_text : I → Text) where
  abbrev pub iconized : MatchedItem I → Text → LinesTruncatedMap → Converted
  iconized m line map = record {
    line = line;
    indices = char_indices_to_byte_indices line (shifted_indices m icon_char_len);
    truncated_map = map;
  }

  -- An item with its own icon; `none` is the panic of `expect`.
  unfoldable pub with_own_icon : ℕ → MatchedItem I → LinesTruncatedMap → Option Converted
  unfolding prepend_full display_text_of shifted_indices char_indices_to_byte_indices
  with_own_icon lnum m map = do
    icon ← icons.icon m.item
    some (
        iconized m (icon ∷ 32 ∷ display_text_of output_text m)
          (prepend_full lnum (icon ∷ 32 ∷ []) map))

  unfoldable pub convert_item : Icon → ℕ → MatchedItem I → LinesTruncatedMap → Option Converted
  unfolding with_own_icon full_line
  convert_item no_icon lnum m map = some (record {
    line = display_text_of output_text m;
    indices = char_indices_to_byte_indices (display_text_of output_text m) m.indices;
    truncated_map = map;
  })
  convert_item enabled lnum m map = elim (full_line lnum map) [
    | some text ↦ with_own_icon lnum m map
    | none ↦ some (iconized m (icons.add_icon_to_text (display_text_of output_text m)) map)
  ]
  convert_item of_item lnum m map = with_own_icon lnum m map

  unfoldable pub convert_items :
      Icon → ℕ → List (MatchedItem I) → LinesTruncatedMap → Option DisplayLines
  unfolding convert_item
  convert_items icon lnum [] map = some (record {
    lines = [];
    indices = [];
    truncated_map = map;
    icon_added = (elim icon [ no_icon ↦ false | enabled ↦ true | of_item ↦ true ]);
  })
  convert_items icon lnum (m ∷ ms) map = do
    c ← convert_item icon (suc lnum) m map
    d ← convert_items icon (suc lnum) ms c.truncated_map
    some (record d { lines = c.line ∷ d.lines; indices = c.indices ∷ d.indices })

  -- `convert_truncated_matched_items_to_display_lines`
  unfoldable pub convert : Icon → List (MatchedItem I) → LinesTruncatedMap → Option DisplayLines
  unfolding convert_items
  convert icon ms map = convert_items icon 0 ms map

pub record PrinterConfig : Type 0 where
  pub line_width : ℕ
  pub icon : Icon
  pub truncate_text : Bool

module _ {I : Type 0} (char_width : ℕ → Option ℕ) (icons : Icons I) (output_text : I → Text)
    (truncation_offset : I → Option ℕ) where
  -- `Printer::to_display_lines`
  unfoldable pub to_display_lines : PrinterConfig → List (MatchedItem I) → Option DisplayLines
  unfolding truncate_item_output_text convert
  to_display_lines p ms = do
    (ms', map) ←
        (if p.truncate_text
          then truncate_item_output_text char_width output_text truncation_offset p.line_width none
              ms
          else some (ms, []))
    d ← convert icons output_text p.icon ms' map
    some (record d { indices = filter (λ is. not (is_empty is)) d.indices })

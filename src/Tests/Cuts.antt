-- ===== src/Tests/Cuts.antt =====
-- A text that is cut on the left to five columns.
use vim_clap.Common.{
  none, false, true, refl, arith, ℕ, ◌≤◌, ◌≡◌, Option, some, [], ◌∷◌, map, filter, drop, get_elem?,
  leb,
}
use vim_clap.Text.{Text, codes, byte_len, len_utf8}
use vim_clap.Trimmer.{dots, display_width, trimmed_left, left}
use vim_clap.Types.SourceItem.{MatchedItem, output_text_of}
use vim_clap.Printer.{Icons, no_icon, DisplayLines, get_line, to_display_lines}
use vim_clap.Printer.Full.{to_display_lines-get_line}
use vim_clap.Trimmer.Left.{trimmed_left-highlights}

abbrev one_column : ℕ → Option ℕ
one_column c = some 1

abbrev digits : Text
digits = codes "0123456789abcdef"

trimmed_left-highlights_example :
    (n : ℕ) × ((trimmed_left one_column 4 digits (10 ∷ 13 ∷ []) 5).trim_info ≡ left n)
    × ((trimmed_left one_column 4 digits (10 ∷ 13 ∷ []) 5).trimmed_text ≡ dots ∷ drop n digits)
    × (display_width one_column 4 (drop n digits) ≤ 5)
    × (map
          (get_elem? (dots ∷ drop n digits))
          (trimmed_left one_column 4 digits (10 ∷ 13 ∷ []) 5).indices
        ≡ map (get_elem? digits) (filter (leb n) (10 ∷ 13 ∷ [])))
trimmed_left-highlights_example = trimmed_left-highlights one_column 4 digits (10 ∷ 13 ∷ []) 5

abbrev plain_icons : Icons Text
plain_icons = record { add_icon_to_text = λ t. t; icon = λ t. none }

abbrev long : MatchedItem Text
long = record {
  item = codes "0123456789";
  rank = [];
  indices = 8 ∷ 9 ∷ [];
  display_text = none;
  output_text = none;
}

abbrev shown : DisplayLines
shown = record {
  lines = (dots ∷ codes "6789") ∷ [];
  indices = (5 ∷ 6 ∷ []) ∷ [];
  truncated_map = (1, codes "0123456789") ∷ [];
  icon_added = false;
}

shown_is :
    to_display_lines one_column plain_icons
      (λ t. t)
      (λ t. none)
      (record { line_width = 5; icon = no_icon; truncate_text = true })
      (long ∷ [])
    ≡ some shown
unfolding to_display_lines
shown_is = refl

to_display_lines-get_line_example : get_line shown 1 ≡ some (codes "0123456789")
unfolding output_text_of byte_len len_utf8
to_display_lines-get_line_example =
    to_display_lines-get_line one_column plain_icons (λ t. t) (λ t. none) 5 (long ∷ []) 0 long
      shown_is refl (omega arith)

-- ===== src/Types/Item.antt =====
-- crates/types/src/source_item.rs: the trait `ClapItem` as the record of its methods, and the types that
-- implement it. `icon` only chooses a symbol and is left out. `Extractors` stands for the functions of
-- crates/pattern, whose results the regular expressions of a library decide.
use mathlib.Core.Option
use vim_clap.Common.{ℕ, Option, none, some}
use vim_clap.Text.{Text, slice_from, slice_to}
use vim_clap.Types.Rank.{MatchResult}
use vim_clap.Types.Scope.{
  MatchScope, full, tag_name, file_name, grep_line, FuzzyText, new_fuzzy_text,
}

pub record Extractors : Type 0 where
  pub extract_tag_name : Text → Option Text
  pub extract_file_name : Text → Option (Text × ℕ)
  pub extract_grep_pattern : Text → Option (Text × ℕ)
  pub parse_grep_item : Text → Option (ℕ × ℕ)

pub record ClapItem : Type 0 where
  pub raw_text : Text
  pub match_text : Text
  pub fuzzy_text : MatchScope → Option FuzzyText
  pub bonus_text : Text
  pub match_result_callback : MatchResult → MatchResult
  pub output_text : Text
  pub truncation_offset : Option ℕ

pub record GrepItem : Type 0 where
  pub raw : Text
  pub end_of_path : ℕ
  pub start_of_line : ℕ

pub record FileNameItem : Type 0 where
  pub raw : Text
  pub file_name_offset : ℕ

pub record SourceItem : Type 0 where
  pub raw : Text
  pub fuzzy_text : Option (Text × ℕ)
  pub output_text : Option Text

unfoldable pub source_item_from : Text → SourceItem
source_item_from raw = record { raw = raw; fuzzy_text = none; output_text = none }

unfoldable pub output_text_or_raw : SourceItem → Text
output_text_or_raw s = elim (s.output_text) [ some text ↦ text | none ↦ s.raw ]

abbrev pub with_offset : Text × ℕ → FuzzyText
with_offset (text, offset) = new_fuzzy_text text offset

-- `file_path` and `line`; `none` is the panic of a slice.
unfoldable pub grep_file_path : GrepItem → Option Text
unfolding slice_to
grep_file_path g = slice_to g.raw g.end_of_path

unfoldable pub grep_line_text : GrepItem → Option Text
unfolding slice_from
grep_line_text g = slice_from g.raw g.start_of_line

unfoldable pub file_name_text : FileNameItem → Option Text
unfolding slice_from
file_name_text f = slice_from f.raw f.file_name_offset

module _ (ex : Extractors) where
  unfoldable pub extract_fuzzy_text : Text → MatchScope → Option FuzzyText
  extract_fuzzy_text text full = some (new_fuzzy_text text 0)
  extract_fuzzy_text text tag_name = Option.map (λ s. new_fuzzy_text s 0) (ex.extract_tag_name text)
  extract_fuzzy_text text file_name = Option.map with_offset (ex.extract_file_name text)
  extract_fuzzy_text text grep_line = Option.map with_offset (ex.extract_grep_pattern text)

  unfoldable pub grep_item_try_new : Text → Option GrepItem
  grep_item_try_new raw =
      Option.map (λ p. record { raw = raw; end_of_path = p.0; start_of_line = p.1 })
        (ex.parse_grep_item raw)

  unfoldable pub file_name_item_try_new : Text → Option FileNameItem
  file_name_item_try_new raw =
      Option.map (λ p. record { raw = raw; file_name_offset = p.1 }) (ex.extract_file_name raw)

  unfoldable pub fuzzy_text_or_exact_using_match_scope : SourceItem → MatchScope → Option FuzzyText
  unfolding extract_fuzzy_text
  fuzzy_text_or_exact_using_match_scope s scope = elim (s.fuzzy_text) [
    | some p ↦ some (with_offset p)
    | none ↦ extract_fuzzy_text s.raw scope
  ]

  -- The trait's default methods, as for a `String`.
  unfoldable pub text_item : Text → ClapItem
  unfolding extract_fuzzy_text
  text_item raw = record {
    raw_text = raw;
    match_text = raw;
    fuzzy_text = extract_fuzzy_text raw;
    bonus_text = raw;
    match_result_callback = λ r. r;
    output_text = raw;
    truncation_offset = none;
  }

  unfoldable pub source_clap_item : SourceItem → ClapItem
  unfolding text_item fuzzy_text_or_exact_using_match_scope output_text_or_raw
  source_clap_item s = record (text_item s.raw) {
    fuzzy_text = fuzzy_text_or_exact_using_match_scope s;
    output_text = output_text_or_raw s;
  }

  -- `none` is the panic of a slice, which the methods meet as soon as they are called.
  unfoldable pub grep_clap_item : GrepItem → Option ClapItem
  unfolding text_item grep_line_text
  grep_clap_item g =
      Option.map
        (λ line. record (text_item g.raw) {
          fuzzy_text = λ scope. some (new_fuzzy_text line g.start_of_line);
          bonus_text = line;
        })
        (grep_line_text g)

  unfoldable pub file_name_clap_item : FileNameItem → Option ClapItem
  unfolding text_item file_name_text
  file_name_clap_item f =
      Option.map
        (λ name. record (text_item f.raw) {
          fuzzy_text = λ scope. some (new_fuzzy_text name f.file_name_offset);
        })
        (file_name_text f)

-- The concrete types behind `Arc<dyn ClapItem>` that the filter makes of a line.
pub data LineItem : Type 0 where
  grep : GrepItem → LineItem
  file : FileNameItem → LineItem
  source : SourceItem → LineItem

-- crates/filter/src/lib.rs
unfoldable pub to_clap_item : Extractors → MatchScope → Text → Option LineItem
unfolding grep_item_try_new file_name_item_try_new source_item_from
to_clap_item ex grep_line line = Option.map (λ g. grep g) (grep_item_try_new ex line)
to_clap_item ex file_name line = Option.map (λ f. file f) (file_name_item_try_new ex line)
to_clap_item ex full line = some (source (source_item_from line))
to_clap_item ex tag_name line = some (source (source_item_from line))

-- ===== src/Filter/Parallel/Lines/Total.antt =====
-- `par_dyn_run_inner` of crates/filter/src/parallel_worker.rs: the panics of the slices that items are made of.
use mathlib.Core.Option
use vim_clap.Common.{ℕ, ◌≡◌, refl, false, Option, none, some, List, [], ◌∷◌}
use vim_clap.Text.{Text, slice_from}
use vim_clap.Types.Query.{Query}
use vim_clap.Types.Scope.{MatchScope, full, grep_line, file_name, tag_name}
use vim_clap.Types.Item.{
  file_name_text, grep_line_text, ClapItem, Extractors, LineItem, to_clap_item,
}
use vim_clap.Types.SourceItem.{MatchedItem}
use vim_clap.Matcher.{Crates, Matcher, MatcherBuilder, build, Outcome, match_item}
use vim_clap.Matcher.Accepts.{is_panicked, match_item-total}
use vim_clap.Filter.Parallel.Lines.{
  items, lines, ParSourceInner, outcomes_of, clap_item_of, match_if_item, match_line,
}

-- The positions that the extractors give are positions of chars of the text.
pub record IsSlicing (ex : Extractors) : Type 0 where
  pub grep :
      (raw : Text) (p s : ℕ)
      → ex.parse_grep_item raw ≡ some (p, s)
      → (t : Text) × (slice_from raw s ≡ some t)
  pub file :
      (raw t : Text) (i : ℕ)
      → ex.extract_file_name raw ≡ some (t, i)
      → (t : Text) × (slice_from raw i ≡ some t)

-- None of the outcomes is a panic.
unfoldable pub IsTotal : List (ℕ × Outcome (MatchedItem ClapItem)) → Type 0
IsTotal [] = Unit
IsTotal ((now, o) ∷ os) = (is_panicked o ≡ false) × IsTotal os

module _ {F Regex : Type 0} (k : Crates F Regex) where
  module _ (s : IsSlicing k.extractors) (m : Matcher Regex)
      (total : (item : ClapItem) → is_panicked (match_item k m item) ≡ false) where
    match_grep-total :
        (line : Text) (r : Option (ℕ × ℕ))
        → k.extractors.parse_grep_item line ≡ r
        → is_panicked (
            match_if_item k m (
              Option.map
                (λ g. LineItem.grep g)
                (Option.map
                  (λ p. record { raw = line; end_of_path = p.0; start_of_line = p.1 })
                  r)))
          ≡ false
    unfolding clap_item_of grep_line_text
    match_grep-total line none e = refl
    match_grep-total line (some (p, i)) e = rw ((s.grep line p i e).1) (total _)

    match_file-total :
        (line : Text) (r : Option (Text × ℕ))
        → k.extractors.extract_file_name line ≡ r
        → is_panicked (
            match_if_item k m (
              Option.map
                (λ f. LineItem.file f)
                (Option.map (λ p. record { raw = line; file_name_offset = p.1 }) r)))
          ≡ false
    unfolding clap_item_of file_name_text
    match_file-total line none e = refl
    match_file-total line (some (t, i)) e = rw ((s.file line t i e).1) (total _)

    match_scope-total :
        (scope : MatchScope) (line : Text)
        → is_panicked (match_if_item k m (to_clap_item k.extractors scope line)) ≡ false
    unfolding to_clap_item clap_item_of
    match_scope-total grep_line line =
        match_grep-total line (k.extractors.parse_grep_item line) refl
    match_scope-total file_name line =
        match_file-total line (k.extractors.extract_file_name line) refl
    match_scope-total full line = total _
    match_scope-total tag_name line = total _

  match_line-total :
      (b : MatcherBuilder) (q : Query)
      → IsSlicing k.extractors
      → (line : Text) → is_panicked (match_line k (build k b q) line) ≡ false
  unfolding match_line
  match_line-total b q s line =
      match_scope-total s (build k b q) (λ item. (match_item-total k b q item none []).0) _ line

  pub outcomes_of-IsTotal :
      (b : MatcherBuilder) (q : Query)
      → IsSlicing k.extractors
      → (source : ParSourceInner) → IsTotal (outcomes_of k (build k b q) source)
  unfolding outcomes_of IsTotal
  outcomes_of-IsTotal b q s (items []) = tt
  outcomes_of-IsTotal b q s (items ((now, item) ∷ xs)) =
      ((match_item-total k b q item none []).0, outcomes_of-IsTotal b q s (items xs))
  outcomes_of-IsTotal b q s (lines []) = tt
  outcomes_of-IsTotal b q s (lines ((now, line) ∷ xs)) =
      (match_line-total b q s line, outcomes_of-IsTotal b q s (lines xs))

-- ===== src/Matcher/Word.antt =====
-- crates/matcher/src/matchers/word_matcher.rs: `Regex` is the matcher that the crate grep-regex builds.
use vim_clap.Common.{ℕ, ◌-◌, Option, none, some, List, [], ◌∷◌, ◌++◌, if◌then◌else◌, is_empty}
use vim_clap.Common.Int.{pos}
use vim_clap.Text.{Text}
use vim_clap.Types.Rank.{Score, add_score}
use vim_clap.Types.SearchTerm.{WordTerm, word_score}
use vim_clap.Utils.{char_indices, mem}
use vim_clap.Matcher.Substring.{positions_from}

-- `build` fails on a text that is no regular expression; `find_at` gives the bytes of the first match.
pub record RegexCrate (Regex : Type 0) : Type 0 where
  pub build : Text → Option Regex
  pub find_at : Regex → Text → Option (ℕ × ℕ)

-- The chars whose byte position is among the given ones.
unfoldable pub chars_at : List ℕ → List (ℕ × ℕ × ℕ) → List ℕ
chars_at byte_indices [] = []
chars_at byte_indices ((char_idx, byte_idx, c) ∷ rest) =
    let others = chars_at byte_indices rest in
    if mem byte_idx byte_indices then char_idx ∷ others else others

abbrev pub WordMatcher : Type 0 → Type 0
WordMatcher Regex = List (WordTerm × Regex)

module _ {Regex : Type 0} (rx : RegexCrate Regex) where
  -- `WordMatcher::new`
  unfoldable pub new_word_matcher : List WordTerm → WordMatcher Regex
  new_word_matcher [] = []
  new_word_matcher (t ∷ ts) = elim (rx.build t.text) [
    | none ↦ new_word_matcher ts
    | some r ↦ (t, r) ∷ new_word_matcher ts
  ]

  -- The score and the bytes of the matches of all words.
  unfoldable pub scan_words : Text → WordMatcher Regex → Score → List ℕ → Score × List ℕ
  unfolding word_score add_score positions_from
  scan_words line [] score bytes = (score, bytes)
  scan_words line ((t, r) ∷ ms) score bytes = elim (rx.find_at r line) [
    | none ↦ scan_words line ms score bytes
    | some (start, end) ↦
        scan_words line ms (add_score score (word_score t start))
          (bytes ++ positions_from start (end - start))
  ]

  unfoldable pub find_word_matches : WordMatcher Regex → Text → Option (Score × List ℕ)
  unfolding scan_words chars_at char_indices
  find_word_matches matchers line =
      let (score, bytes) = scan_words line matchers (pos 0) [] in
      let indices = chars_at bytes (char_indices 0 0 line) in
      if is_empty indices then none else some (score, indices)

-- ===== src/Matcher/Substring.antt =====
-- crates/matcher/src/algo/substring.rs: the words of a query, each found in the text. The floating-point
-- numbers of the score are a parameter.
use mathlib.Core.Option
use vim_clap.Common.{
  ℕ, zero, suc, ◌+◌, ◌-◌, Option, none, some, List, [], ◌∷◌, ◌++◌, if◌then◌else◌, ltb, is_empty,
  last,
}
use vim_clap.Common.Order.{sort}
use vim_clap.Text.{Text, Unicode, byte_len, find, split_whitespace}
use vim_clap.Types.Rank.{Score}
use vim_clap.Types.Scope.{CaseMatching, ignore, respect, smart, is_case_sensitive}

-- The operations of `f64` that the score uses; `as_score` is `as i32`.
pub record Float (F : Type 0) : Type 0 where
  pub of_nat : ℕ → F
  pub add : F → F → F
  pub sub : F → F → F
  pub div : F → F → F
  pub as_score : F → Score

-- `(idx..).take(n)`, written by `resize_with`.
unfoldable pub positions_from : ℕ → ℕ → List ℕ
positions_from pos zero = []
positions_from pos (suc n) = pos ∷ positions_from (suc pos) n

-- The needle and the haystack that are compared.
unfoldable pub fold_case : Unicode → CaseMatching → Text → Text → Text × Text
unfolding is_case_sensitive
fold_case u ignore needle haystack = (u.to_lowercase needle, u.to_lowercase haystack)
fold_case u respect needle haystack = (needle, haystack)
fold_case u smart needle haystack =
    if is_case_sensitive u smart needle
    then (needle, haystack)
    else (needle, u.to_lowercase haystack)

module _ {F : Type 0} (u : Unicode) (f : Float F) where
  abbrev pub word_score_of : ℕ → ℕ → F
  word_score_of first_pos last_pos =
      f.sub
        (f.add (f.div (f.of_nat 2) (f.of_nat (first_pos + 1)))
          (f.div (f.of_nat 1) (f.of_nat (last_pos + 1))))
        (f.of_nat (last_pos + 1 - first_pos))

  -- `_substr_indices_impl`
  unfoldable pub substr_indices_impl : Text → Text → Option (F × List ℕ)
  unfolding find positions_from byte_len
  substr_indices_impl haystack niddle =
      let lower = u.to_lowercase niddle in
      elim (find haystack lower) [
        | none ↦ none
        | some idx ↦
            let positions = positions_from idx (byte_len lower) in
            elim (last positions) [
              | none ↦ none
              | some last_pos ↦ some (word_score_of idx last_pos, positions)
            ]
      ]

  -- The loop over the words.
  unfoldable pub find_words : Text → List Text → F → List ℕ → Option (F × List ℕ)
  unfolding substr_indices_impl
  find_words haystack [] total positions = some (total, positions)
  find_words haystack (word ∷ words) total positions = elim (substr_indices_impl haystack word) [
    | none ↦ none
    | some (score, indices) ↦ find_words haystack words (f.add total score) (positions ++ indices)
  ]

  unfoldable pub unordered_substr_indices_impl : Text → Text → Option (F × List ℕ)
  unfolding find_words byte_len split_whitespace sort
  unordered_substr_indices_impl haystack niddle =
      if ltb 1024 (byte_len haystack)
      then none
      else Option.map
          (λ p. if is_empty p.1 then (f.of_nat 0, p.1) else (p.0, sort (λ a b. ltb a b) p.1))
          (find_words (u.to_lowercase haystack) (split_whitespace niddle) (f.of_nat 0) [])

  unfoldable pub substr_indices : Text → Text → CaseMatching → Option (Score × List ℕ)
  unfolding unordered_substr_indices_impl fold_case
  substr_indices haystack needle case_matching =
      let (n, h) = fold_case u case_matching needle haystack in
      Option.map (λ p. (f.as_score p.0, p.1)) (unordered_substr_indices_impl h n)

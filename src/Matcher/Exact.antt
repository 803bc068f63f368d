-- ===== src/Matcher/Exact.antt =====
-- crates/matcher/src/matchers/exact_matcher.rs
use mathlib.Core.Option
use vim_clap.Common.{
  ℕ, zero, suc, ◌-◌, ◌/◌, ◌^◌, ◌<◌, Option, none, some, List, [], ◌∷◌, ◌++◌, if◌then◌else◌,
}
use vim_clap.Common.Int.{ℤ, pos, negsuc, max_ℤ}
use vim_clap.Common.Options.{◌>>=◌}
use vim_clap.Text.{
  Text, Unicode, byte_len, byte_len-pos, trim_start, trim_end, starts_with, ends_with,
}
use vim_clap.Types.Rank.{Score, add_score, neg_score, as_score}
use vim_clap.Types.Scope.{CaseMatching}
use vim_clap.Types.SearchTerm.{ExactTerm, exact, prefix_exact, suffix_exact}
use vim_clap.Matcher.Substring.{Float, substr_indices}

-- `i as usize` on a machine of 64 bits.
unfoldable pub as_usize : ℤ → ℕ
as_usize (pos n) = n
as_usize (negsuc n) = 2 ^ 64 - suc n

-- `resize_with` whose closure increments `match_start` and gives it.
unfoldable pub positions_after : ℤ → ℕ → List ℕ
unfolding as_usize add_score
positions_after match_start zero = []
positions_after match_start (suc n) =
    let m = add_score match_start (pos 1) in as_usize m ∷ positions_after m n

-- `-1i32 + white_space_len as i32`, and the start of a suffix.
unfoldable pub prefix_start : ℕ → ℤ
unfolding add_score as_score
prefix_start white_space_len = add_score (negsuc 0) (as_score white_space_len)

unfoldable pub suffix_start : ℕ → ℕ → ℕ → ℤ
unfolding add_score as_score neg_score
suffix_start total_len len white_space_len =
    add_score (add_score (add_score (as_score total_len) (neg_score (as_score len))) (negsuc 0))
      (neg_score (as_score white_space_len))

-- `n / d` panics where `d` is 0, so that it asks for a divisor above 0.
abbrev div_by : (n d : ℕ) → 0 < d → ℕ
div_by n d h = n / d

pub record ExactMatcher : Type 0 where
  pub exact_terms : List ExactTerm
  pub case_matching : CaseMatching

module _ {F : Type 0} (u : Unicode) (f : Float F) (case_matching : CaseMatching) where
  -- What one term adds to the score and the indices; `none` where it is not satisfied.
  unfoldable pub match_exact_term : Text → ExactTerm → Option (Score × List ℕ)
  unfolding substr_indices max_ℤ trim_start trim_end starts_with ends_with positions_after
      prefix_start suffix_start as_score
  match_exact_term line term =
      let len = byte_len term.text in
      elim (term.ty) [
        | exact ↦
            Option.map (λ p. (max_ℤ p.0 (as_score len), p.1))
              (substr_indices u f line term.text case_matching)
        | prefix_exact ↦
            let trimmed = trim_start line in
            if starts_with trimmed term.text
            then some (
              as_score len,
              positions_after (prefix_start (byte_len line - byte_len trimmed)) len,
            )
            else none
        | suffix_exact ↦
            let trimmed = trim_end line in
            if ends_with trimmed term.text
            then some (
              as_score len,
              positions_after (suffix_start (byte_len line) len (byte_len line - byte_len trimmed))
                  len,
            )
            else none
      ]

  -- The loop over the terms.
  unfoldable pub match_exact_terms :
      Text → List ExactTerm → Score → List ℕ → Option (Score × List ℕ)
  unfolding match_exact_term add_score
  match_exact_terms line [] score indices = some (score, indices)
  match_exact_terms line (t ∷ ts) score indices = do
    (s, is) ← match_exact_term line t
    match_exact_terms line ts (add_score score s) (indices ++ is)

  -- `ExactMatcher::find_matches`; the first clause is the guard `is_empty`.
  unfoldable pub find_exact_matches : List ExactTerm → Text → Option (Score × List ℕ)
  unfolding match_exact_terms byte_len
  find_exact_matches terms [] = none
  find_exact_matches terms (c ∷ cs) =
      let bonus : Score = as_score (div_by 512 (byte_len (c ∷ cs)) (byte_len-pos c cs)) in
      Option.map (λ p. (add_score p.0 bonus, p.1)) (match_exact_terms (c ∷ cs) terms (pos 0) [])

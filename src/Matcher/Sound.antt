-- ===== src/Matcher/Sound.antt =====
-- Which items a matcher of crates/matcher/src/lib.rs matches, term by term.
use vim_clap.Common.{
  none, some, Option, Option-cases, inl, inr, ◌∙◌, ◌≡◌, refl, Bool, false, not, ◌&&◌, List, [], ◌∷◌,
  ◌++◌, ℕ, all, any, is_empty, arith,
}
use vim_clap.Common.Options.{is_some, is_some-bind, is_some-map, is_some-bind_some, is_some-guard}
use vim_clap.Text.{Text, Unicode, starts_with, ends_with, trim_start, trim_end}
use vim_clap.Types.Rank.{Score, add_score}
use vim_clap.Types.Scope.{CaseMatching, FuzzyText}
use vim_clap.Types.Item.{ClapItem}
use vim_clap.Types.SearchTerm.{
  ExactTerm, ExactTermType, exact, prefix_exact, suffix_exact, FuzzyTerm, InverseTerm,
  exact_matched,
}
use vim_clap.Matcher.Inverse.{match_any}
use vim_clap.Matcher.Substring.{Float, substr_indices}
use vim_clap.Matcher.Exact.{ExactMatcher, match_exact_term, match_exact_terms, find_exact_matches}
use vim_clap.Matcher.Fuzzy.{
  Algorithms, FuzzyMatcher, fuzzy_match, match_fuzzy_terms, match_fuzzy_text, find_fuzzy_matches,
}
use vim_clap.Matcher.{Crates, Matcher, find_in_item, find_words_in, find_exact_in}

-- What a term asks of a line.
module _ {F : Type 0} (u : Unicode) (f : Float F) (case_matching : CaseMatching) where
  abbrev pub is_satisfied : Text → ExactTerm → Bool
  is_satisfied line term = elim (term.ty) [
    | exact ↦ is_some (substr_indices u f line term.text case_matching)
    | prefix_exact ↦ starts_with (trim_start line) term.text
    | suffix_exact ↦ ends_with (trim_end line) term.text
  ]

  match_exact_term-is_some :
      (line : Text) (ty : ExactTermType) (text : Text)
      → is_some (match_exact_term u f case_matching line (record { ty = ty; text = text }))
        ≡ is_satisfied line (record { ty = ty; text = text })
  unfolding match_exact_term
  match_exact_term-is_some line exact text = ground arith
  match_exact_term-is_some line prefix_exact text = ground arith
  match_exact_term-is_some line suffix_exact text = ground arith

  match_exact_terms-is_some :
      (line : Text) (ts : List ExactTerm) (s : Score) (is : List ℕ)
      → is_some (match_exact_terms u f case_matching line ts s is) ≡ all (is_satisfied line) ts
  unfolding match_exact_terms
  match_exact_terms-is_some line [] s is = refl
  match_exact_terms-is_some line (t ∷ ts) s is =
      is_some-bind (match_exact_term u f case_matching line t) _
        (match_exact_term-is_some line t.ty t.text)
        (λ (s', is'). match_exact_terms-is_some line ts (add_score s s') (is ++ is'))

match_fuzzy_terms-is_some :
    (a : Algorithms) (m : FuzzyMatcher) (text : FuzzyText) (ts : List FuzzyTerm) (s : Score)
    (is : List ℕ)
    → is_some (match_fuzzy_terms a m text ts s is)
      ≡ all (λ t. is_some (fuzzy_match a m.fuzzy_algo t.text text m.case_matching)) ts
unfolding match_fuzzy_terms
match_fuzzy_terms-is_some a m text [] s is = refl
match_fuzzy_terms-is_some a m text (t ∷ ts) s is =
    is_some-bind (fuzzy_match a m.fuzzy_algo t.text text m.case_matching) _ refl
      (λ r. match_fuzzy_terms-is_some a m text ts (add_score s r.score) (is ++ r.indices))

module _ {F Regex : Type 0} (k : Crates F Regex) where
  abbrev pub has_fuzzy_terms : FuzzyMatcher → Option FuzzyText → Bool
  has_fuzzy_terms m none = false
  has_fuzzy_terms m (some text) =
      all (λ t. is_some (fuzzy_match k.algorithms m.fuzzy_algo t.text text m.case_matching))
        m.fuzzy_terms

  abbrev pub has_exact_terms : ExactMatcher → Text → Bool
  has_exact_terms m line = all (is_satisfied k.unicode k.float m.case_matching line) m.exact_terms

  abbrev pub is_excluded : List InverseTerm → Text → Bool
  is_excluded ts line = any (λ t. exact_matched t line) ts

  -- What the terms of a matcher ask of an item.
  abbrev pub accepts : Matcher Regex → ClapItem → Bool
  accepts m item =
      not (is_empty item.match_text)
      && (not (is_excluded m.inverse_matcher item.match_text)
          && (is_some (find_words_in k m.word_matcher item.match_text)
              && (has_exact_terms m.exact_matcher item.match_text
                  && has_fuzzy_terms m.fuzzy_matcher
                      (item.fuzzy_text m.fuzzy_matcher.match_scope))))

  find_exact_in-is_some :
      (m : Matcher Regex) (line : Text)
      → is_empty line ≡ false
      → is_some (find_exact_in k m line) ≡ has_exact_terms m.exact_matcher line
  unfolding find_exact_in find_exact_matches
  find_exact_in-is_some m [] h = absurd (ground arith)
  find_exact_in-is_some m (c ∷ cs) h =
      (is_some-map _ _
        ∙ match_exact_terms-is_some k.unicode k.float _ (c ∷ cs) m.exact_matcher.exact_terms _ _)

  find_fuzzy_matches-is_some :
      (m : FuzzyMatcher) (item : ClapItem)
      → is_some (find_fuzzy_matches k.algorithms m item)
        ≡ has_fuzzy_terms m (item.fuzzy_text m.match_scope)
  unfolding find_fuzzy_matches match_fuzzy_text
  find_fuzzy_matches-is_some m item = elim (Option-cases (item.fuzzy_text m.match_scope)) [
    | inl e ↦ rw e refl
    | inr (text, e) ↦ rw e (match_fuzzy_terms-is_some k.algorithms m text m.fuzzy_terms _ _)
  ]

  pub find_in_item-is_some :
      (m : Matcher Regex) (item : ClapItem) → is_some (find_in_item k m item) ≡ accepts m item
  unfolding find_in_item match_any
  find_in_item-is_some m item = is_some-guard (is_empty item.match_text) _ λ e.
      is_some-guard (match_any m.inverse_matcher item.match_text) _ λ x.
        is_some-bind (find_words_in k m.word_matcher item.match_text) _ refl λ word.
          is_some-bind (find_exact_in k m item.match_text) _ (find_exact_in-is_some m _ e) λ exact.
            is_some-bind_some (find_fuzzy_matches k.algorithms m.fuzzy_matcher item) _
            ∙ find_fuzzy_matches-is_some m.fuzzy_matcher item

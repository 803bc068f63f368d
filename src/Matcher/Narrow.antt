-- ===== src/Matcher/Narrow.antt =====
-- Adding a term to the query of crates/matcher/src/lib.rs: all terms but words narrow the matches.
use vim_clap.Common.{
  sym, ◌∙◌, none, some, Option, ◌≡◌, ◌≢◌, refl, Bool, true, List, [], ◌∷◌, ◌++◌, all, any-append,
  ◌&&◌, arith,
}
use vim_clap.Types.Item.{ClapItem}
use vim_clap.Types.SearchTerm.{SearchTerm, exact_matched, FuzzyTerm, TermType}
use vim_clap.Types.Query.{Query, push_term}
use vim_clap.Matcher.Sound.{has_fuzzy_terms, is_satisfied, accepts}
use vim_clap.Matcher.{match_item, Text, FuzzyMatcher, Crates, MatcherBuilder, build}
use vim_clap.Types.Scope.{FuzzyText}
use vim_clap.Common.Options.{is_some}
use vim_clap.Matcher.Fuzzy.{fuzzy_match}
use vim_clap.Matcher.Accepts.{match_item-accepts, is_matched}

all-append {ℓ} :
    {A : Type ℓ} (p : A → Bool) (xs ys : List A) → all p (xs ++ ys) ≡ (all p xs && all p ys)
all-append p [] ys = refl
all-append p (x ∷ xs) ys = ground (arith, all-append p xs ys)

module _ {F Regex : Type 0} (k : Crates F Regex) (b : MatcherBuilder) (q : Query)
    (item : ClapItem) where
  fuzzy-push :
      (m : FuzzyMatcher) (t : FuzzyTerm) (text? : Option FuzzyText)
      → has_fuzzy_terms k (record m { fuzzy_terms = m.fuzzy_terms ++ t ∷ [] }) text? ≡ true
      → has_fuzzy_terms k m text? ≡ true
  fuzzy-push m t none h = h
  fuzzy-push m t (some text) h = ground (
    arith,
    all-append (λ t. is_some (fuzzy_match k.algorithms m.fuzzy_algo t.text text m.case_matching))
        m.fuzzy_terms (t ∷ []),
  )

  accepts-push_term :
      (ty : TermType) (text : Text)
      → ty ≢ TermType.word
      → accepts k (build k b (push_term (record { ty = ty; text = text }) q)) item ≡ true
      → accepts k (build k b q) item ≡ true
  unfolding build push_term
  accepts-push_term TermType.word text n h = absurd (n refl)
  accepts-push_term (TermType.exact ty) text n h = ground (
    arith,
    all-append (is_satisfied k.unicode k.float b.case_matching item.match_text) q.exact_terms
        (record { ty = ty; text = text } ∷ []),
  )
  accepts-push_term (TermType.inverse ty) text n h = ground (
    arith,
    any-append (λ t. exact_matched t item.match_text) q.inverse_terms
        (record { ty = ty; text = text } ∷ []),
  )
  accepts-push_term (TermType.fuzzy ty) text n h = ground (
    arith,
    fuzzy-push (build k b q).fuzzy_matcher (record { ty = ty; text = text })
        (item.fuzzy_text b.match_scope),
  )

  -- Adding a term to a query, unless it is a word, matches nothing more: each item that the longer
  -- query matches is matched without the term, whatever the builder and the query are.
  pub match_item-push_term :
      (t : SearchTerm)
      → t.ty ≢ TermType.word
      → is_matched (match_item k (build k b (push_term t q)) item) ≡ true
      → is_matched (match_item k (build k b q) item) ≡ true
  match_item-push_term t n h =
      match_item-accepts k b q item
      ∙ accepts-push_term t.ty t.text n (sym (match_item-accepts k b (push_term t q) item) ∙ h)

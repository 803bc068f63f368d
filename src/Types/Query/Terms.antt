-- ===== src/Types/Query/Terms.antt =====
-- The loop over the words of an input against the terms of each kind, read off the list of all terms.
use mathlib.Core.List.{append-nil, append_assoc}
use vim_clap.Common.{◌+◌, ◌≡◌, refl, sym, ap, ◌∙◌, List, [], ◌∷◌, ◌++◌, map, length, arith}
use vim_clap.Text.{Text, split_whitespace}
use vim_clap.Types.SearchTerm.{
  SearchTerm, WordTerm, ExactTerm, FuzzyTerm, InverseTerm, TermType, parse_term, new_term,
}
use vim_clap.Types.Query.{Query, empty_query, push_term, push_tokens, parse_query}

-- The terms of a kind among all terms, in their order.
abbrev pub words : List SearchTerm → List WordTerm
words [] = []
words (t ∷ ts) = elim (t.ty) [ TermType.word ↦ record { text = t.text } ∷ words ts | _ ↦ words ts ]

abbrev pub exacts : List SearchTerm → List ExactTerm
exacts [] = []
exacts (t ∷ ts) = elim (t.ty) [
  | TermType.exact ty ↦ record { ty = ty; text = t.text } ∷ exacts ts
  | _ ↦ exacts ts
]

abbrev pub fuzzies : List SearchTerm → List FuzzyTerm
fuzzies [] = []
fuzzies (t ∷ ts) = elim (t.ty) [
  | TermType.fuzzy ty ↦ record { ty = ty; text = t.text } ∷ fuzzies ts
  | _ ↦ fuzzies ts
]

abbrev pub inverses : List SearchTerm → List InverseTerm
inverses [] = []
inverses (t ∷ ts) = elim (t.ty) [
  | TermType.inverse ty ↦ record { ty = ty; text = t.text } ∷ inverses ts
  | _ ↦ inverses ts
]

-- What a query holds after more terms.
abbrev extended : Query → List SearchTerm → Query
extended q ts = record {
  word_terms = q.word_terms ++ words ts;
  exact_terms = q.exact_terms ++ exacts ts;
  fuzzy_terms = q.fuzzy_terms ++ fuzzies ts;
  inverse_terms = q.inverse_terms ++ inverses ts;
}

extended-push_new_term :
    (ty : TermType) (x : Text) (ts : List SearchTerm) (q : Query)
    → extended (push_term (new_term ty x) q) ts ≡ extended q (new_term ty x ∷ ts)
unfolding push_term
extended-push_new_term TermType.word x ts q =
    ap (λ l. record (extended q ts) { word_terms = l })
      (append_assoc q.word_terms (record { text = x } ∷ []) (words ts))
extended-push_new_term (TermType.exact ty) x ts q =
    ap (λ l. record (extended q ts) { exact_terms = l })
      (append_assoc q.exact_terms (record { ty = ty; text = x } ∷ []) (exacts ts))
extended-push_new_term (TermType.fuzzy ty) x ts q =
    ap (λ l. record (extended q ts) { fuzzy_terms = l })
      (append_assoc q.fuzzy_terms (record { ty = ty; text = x } ∷ []) (fuzzies ts))
extended-push_new_term (TermType.inverse ty) x ts q =
    ap (λ l. record (extended q ts) { inverse_terms = l })
      (append_assoc q.inverse_terms (record { ty = ty; text = x } ∷ []) (inverses ts))

extended-push_term :
    (t : SearchTerm) (ts : List SearchTerm) (q : Query)
    → extended (push_term t q) ts ≡ extended q (t ∷ ts)
extended-push_term t ts q = extended-push_new_term t.ty t.text ts q

extended-nil : (q : Query) → extended q [] ≡ q
extended-nil q = λ i. record {
  word_terms = append-nil q.word_terms i;
  exact_terms = append-nil q.exact_terms i;
  fuzzy_terms = append-nil q.fuzzy_terms i;
  inverse_terms = append-nil q.inverse_terms i;
}

push_tokens-extended :
    (tokens : List Text) (q : Query) → push_tokens tokens q ≡ extended q (map parse_term tokens)
unfolding push_tokens
push_tokens-extended [] q = sym (extended-nil q)
push_tokens-extended (t ∷ ts) q =
    push_tokens-extended ts (push_term (parse_term t) q)
    ∙ extended-push_term (parse_term t) (map parse_term ts) q

length-terms :
    (ts : List SearchTerm)
    → length (words ts) + length (exacts ts) + length (fuzzies ts) + length (inverses ts)
      ≡ length ts
length-terms [] = refl
length-terms (t ∷ ts) = ground (arith, length-terms ts)

length-parsed : (tokens : List Text) → length (map parse_term tokens) ≡ length tokens
length-parsed [] = refl
length-parsed (t ∷ ts) = omega (arith, length-parsed ts)

-- A query holds the terms of each kind that its words parse to, in the order of the input, and as many
-- terms as the input has words.
pub parse_query-terms :
    (input : Text)
    → let terms = map parse_term (split_whitespace input) in
      let q = parse_query input in
      (q.word_terms ≡ words terms)
      × (q.exact_terms ≡ exacts terms)
      × (q.fuzzy_terms ≡ fuzzies terms)
      × (q.inverse_terms ≡ inverses terms)
      × (length q.word_terms + length q.exact_terms + length q.fuzzy_terms + length q.inverse_terms
          ≡ length (split_whitespace input))
unfolding parse_query
parse_query-terms input =
    let same = push_tokens-extended (split_whitespace input) empty_query in
    let all_terms =
      length-terms (map parse_term (split_whitespace input))
      ∙ length-parsed (split_whitespace input) in
    (
      ap (λ q. q.word_terms) same,
      ap (λ q. q.exact_terms) same,
      ap (λ q. q.fuzzy_terms) same,
      ap (λ q. q.inverse_terms) same,
      rw same all_terms,
    )

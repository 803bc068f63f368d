-- ===== src/Types/SearchTerm/Print.antt =====
-- Parsing a term loses nothing: the term can be printed again.
use vim_clap.Common.{◌≡◌, refl, sym, ◌∙◌, ap, ◌++◌, Option-cases, inl, inr}
use vim_clap.Text.{Text, codes, strip_prefix, strip_suffix}
use vim_clap.Text.Affixes.{strip_prefix_lem, strip_suffix_lem}
use vim_clap.Types.SearchTerm.{
  SearchTerm, TermType, ExactTermType, InverseTermType, prefix_exact, suffix_exact, inverse_exact,
  inverse_prefix_exact, inverse_suffix_exact, parse_inverse, parse_term,
}

-- A term as it is typed.
abbrev pub print_exact : ExactTermType → Text → Text
print_exact ExactTermType.exact text = codes "'" ++ text
print_exact prefix_exact text = codes "^" ++ text
print_exact suffix_exact text = text ++ codes "$"

abbrev pub print_inverse : InverseTermType → Text → Text
print_inverse inverse_exact text = codes "!" ++ text
print_inverse inverse_prefix_exact text = codes "!^" ++ text
print_inverse inverse_suffix_exact text = codes "!" ++ (text ++ codes "$")

abbrev pub print_type : TermType → Text → Text
print_type (TermType.fuzzy ty) text = text
print_type (TermType.exact ty) text = print_exact ty text
print_type (TermType.inverse ty) text = print_inverse ty text
print_type TermType.word text = codes "\"" ++ text

abbrev pub print_term : SearchTerm → Text
print_term t = print_type t.ty t.text

print_term-parse_inverse : (s : Text) → print_term (parse_inverse s) ≡ codes "!" ++ s
unfolding parse_inverse
print_term-parse_inverse s = elim (Option-cases (strip_prefix s (codes "^"))) [
  | inr (r, e) ↦
      rw (e, parse_inverse) (ap (λ x. codes "!" ++ x) (sym (strip_prefix_lem s (codes "^") r e)))
  | inl e ↦ elim (Option-cases (strip_suffix s (codes "$"))) [
    | inr (r, f) ↦
        rw (e, f, parse_inverse)
          (ap (λ x. codes "!" ++ x) (sym (strip_suffix_lem s (codes "$") r f)))
    | inl f ↦ rw (e, f, parse_inverse) refl
  ]
]

-- Printing the term that a text is parsed to gives the text back: parsing
-- loses no char.
pub print_term-parse_term : (s : Text) → print_term (parse_term s) ≡ s
unfolding parse_term
print_term-parse_term s = elim (Option-cases (strip_prefix s (codes "\""))) [
  | inr (r, e) ↦ rw (e, parse_term) (sym (strip_prefix_lem s (codes "\"") r e))
  | inl e ↦ elim (Option-cases (strip_prefix s (codes "'"))) [
    | inr (r, f) ↦ rw (e, f, parse_term) (sym (strip_prefix_lem s (codes "'") r f))
    | inl f ↦ elim (Option-cases (strip_prefix s (codes "^"))) [
      | inr (r, g) ↦ rw (e, f, g, parse_term) (sym (strip_prefix_lem s (codes "^") r g))
      | inl g ↦ elim (Option-cases (strip_prefix s (codes "!"))) [
        | inr (r, h) ↦
            rw (e, f, g, h, parse_term)
              (print_term-parse_inverse r ∙ sym (strip_prefix_lem s (codes "!") r h))
        | inl h ↦ elim (Option-cases (strip_suffix s (codes "$"))) [
          | inr (r, k) ↦ rw (e, f, g, h, k, parse_term) (sym (strip_suffix_lem s (codes "$") r k))
          | inl k ↦ rw (e, f, g, h, k, parse_term) refl
        ]
      ]
    ]
  ]
]

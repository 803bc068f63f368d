-- ===== src/Text/Affixes.antt =====
-- What comparing, stripping and searching say of the text.
use mathlib.Core.List.{reverse, reverse-reverse, reverse-append}
use vim_clap.Common.{
  ◌≡◌, refl, sym, ap, ◌∙◌, true, some, [], ◌∷◌, ◌++◌, arith, Option-cases, inl, inr,
}
use vim_clap.Text.{Text, text_eq, strip_prefix, strip_suffix, starts_with, contains}

pub strip_prefix_lem : (t p r : Text) → strip_prefix t p ≡ some r → t ≡ p ++ r
unfolding strip_prefix
strip_prefix_lem t [] r h = ground arith
strip_prefix_lem [] (p ∷ ps) r h = ground arith
strip_prefix_lem (c ∷ cs) (p ∷ ps) r h = ground (arith, strip_prefix_lem cs ps r)

pub strip_suffix_lem : (t p r : Text) → strip_suffix t p ≡ some r → t ≡ r ++ p
unfolding strip_suffix
strip_suffix_lem t p r h = elim (Option-cases (strip_prefix (reverse t) (reverse p))) [
  | inl e ↦ absurd (ground arith)
  | inr (r', e) ↦
      let split = strip_prefix_lem (reverse t) (reverse p) r' e in
      let same : r ≡ reverse r' = ground arith in
      sym (reverse-reverse t)
      ∙ ap reverse split
      ∙ reverse-append (reverse p) r'
      ∙ ap (λ x. reverse r' ++ x) (reverse-reverse p)
      ∙ ap (λ x. x ++ p) (sym same)
]

-- A text with a prefix begins with every prefix of that.
pub starts_with_trans :
    (t p q : Text) → starts_with t p ≡ true → starts_with p q ≡ true → starts_with t q ≡ true
unfolding starts_with
starts_with_trans t p [] h k = refl
starts_with_trans t [] (q ∷ qs) h k = ground arith
starts_with_trans [] (p ∷ ps) (q ∷ qs) h k = ground arith
starts_with_trans (c ∷ cs) (p ∷ ps) (q ∷ qs) h k = ground (arith, starts_with_trans cs ps qs)

pub contains-starts_with :
    (t p q : Text) → contains t p ≡ true → starts_with p q ≡ true → contains t q ≡ true
unfolding contains
contains-starts_with [] p q h k = starts_with_trans [] p q h k
contains-starts_with (c ∷ cs) p q h k =
    ground (arith, starts_with_trans (c ∷ cs) p q, contains-starts_with cs p q)

pub text_eq-eq : (s t : Text) → text_eq s t ≡ true → s ≡ t
text_eq-eq [] [] h = refl
text_eq-eq [] (d ∷ ds) h = ground arith
text_eq-eq (c ∷ cs) [] h = ground arith
text_eq-eq (c ∷ cs) (d ∷ ds) h = ground (arith, text_eq-eq cs ds)

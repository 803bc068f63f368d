-- ===== src/Diagnostics/Included.antt =====
-- Equality of diagnostics, and the diagnostics that a list holds up to it.
use mathlib.Core.Path.{subst}
use vim_clap.Common.{
  is_empty, ◌≡◌, refl, sym, ◌∙◌, Bool, true, not, List, [], ◌∷◌, ◌++◌, ◌&&◌, any, filter, dedup,
  dedup_after, arith, Bool-cases, inl, inr, any-append, All,
}
use vim_clap.Common.Order.{sort, any-sort}
use vim_clap.Text.{Text, text_eq}
use vim_clap.Diagnostics.{
  Diagnostic, DiagnosticSpan, spans_eq, same_lines, is_same_code, diagnostic_eq, line_before,
}
use vim_clap.Diagnostics.Worker.{followups}

text_eq_refl : (t : Text) → text_eq t t ≡ true
text_eq_refl [] = refl
text_eq_refl (c ∷ cs) = ground (arith, text_eq_refl cs)

text_eq_comm : (s t : Text) → text_eq s t ≡ text_eq t s
text_eq_comm [] [] = refl
text_eq_comm [] (d ∷ ds) = refl
text_eq_comm (c ∷ cs) [] = refl
text_eq_comm (c ∷ cs) (d ∷ ds) = ground (arith, text_eq_comm cs ds)

spans_eq_refl : (s : List DiagnosticSpan) → spans_eq s s ≡ true
spans_eq_refl [] = refl
spans_eq_refl (a ∷ s) = ground (arith, spans_eq_refl s)

spans_eq_comm : (s t : List DiagnosticSpan) → spans_eq s t ≡ spans_eq t s
spans_eq_comm [] [] = refl
spans_eq_comm [] (b ∷ t) = refl
spans_eq_comm (a ∷ s) [] = refl
spans_eq_comm (a ∷ s) (b ∷ t) = ground (arith, spans_eq_comm s t)

same_lines_comm : (s t : List DiagnosticSpan) → same_lines s t ≡ same_lines t s
unfolding same_lines
same_lines_comm [] [] = refl
same_lines_comm [] (b ∷ t) = refl
same_lines_comm (a ∷ s) [] = refl
same_lines_comm (a ∷ s) (b ∷ t) = ground (arith, same_lines_comm s t)

is_same_code_comm : (a b : Diagnostic) → is_same_code a b ≡ is_same_code b a
unfolding is_same_code
is_same_code_comm a b = by_codes a.code b.code
  where
    by_codes : (s t : Text) → (not (is_empty s) && text_eq s t) ≡ (not (is_empty t) && text_eq t s)
    by_codes [] [] = refl
    by_codes [] (d ∷ ds) = refl
    by_codes (c ∷ cs) [] = refl
    by_codes (c ∷ cs) (d ∷ ds) = text_eq_comm (c ∷ cs) (d ∷ ds)

pub diagnostic_eq_refl : (d : Diagnostic) → diagnostic_eq d d ≡ true
unfolding diagnostic_eq
diagnostic_eq_refl d = ground (arith, text_eq_refl d.message, spans_eq_refl d.spans)

pub diagnostic_eq_comm : (a b : Diagnostic) → diagnostic_eq a b ≡ diagnostic_eq b a
unfolding diagnostic_eq
diagnostic_eq_comm a b = rw (
  same_lines_comm a.spans b.spans,
  is_same_code_comm a b,
  text_eq_comm a.message b.message,
  spans_eq_comm a.spans b.spans,
)

-- `d` is `==` to a diagnostic of the list.
abbrev pub is_in : List Diagnostic → Diagnostic → Bool
is_in ds d = any (λ e. diagnostic_eq e d) ds

abbrev pub AllIn : List Diagnostic → List Diagnostic → Type 0
AllIn ds xs = All (λ d. is_in ds d ≡ true) xs

abbrev pub same : Diagnostic → Diagnostic → Bool
same previous d = diagnostic_eq d previous

AllIn-weaken : (x : Diagnostic) (ds xs : List Diagnostic) → AllIn ds xs → AllIn (x ∷ ds) xs
AllIn-weaken x ds [] h = tt
AllIn-weaken x ds (y ∷ ys) h = (ground (arith, h.0), AllIn-weaken x ds ys h.1)

-- Every element of a list is `==` to one that `dedup` keeps.
dedup_after-AllIn : (x : Diagnostic) (xs : List Diagnostic) → AllIn (x ∷ dedup_after same x xs) xs
dedup_after-AllIn x [] = tt
dedup_after-AllIn x (y ∷ ys) = step (dedup_after-AllIn x ys) (dedup_after-AllIn y ys)
  where
    step :
        AllIn (x ∷ dedup_after same x ys) ys
        → AllIn (y ∷ dedup_after same y ys) ys
        → AllIn (x ∷ dedup_after same x (y ∷ ys)) (y ∷ ys)
    step skipped kept = elim (Bool-cases (diagnostic_eq y x)) [
      | inl e ↦
          let dropped : dedup_after same x (y ∷ ys) ≡ dedup_after same x ys = rw e refl in
          subst (λ l. AllIn (x ∷ l) (y ∷ ys)) (sym dropped)
            (ground (arith, diagnostic_eq_comm x y), skipped)
      | inr e ↦
          let stays : dedup_after same x (y ∷ ys) ≡ y ∷ dedup_after same y ys = rw e refl in
          subst (λ l. AllIn (x ∷ l) (y ∷ ys)) (sym stays)
            (
              ground (arith, diagnostic_eq_refl y),
              AllIn-weaken x (y ∷ dedup_after same y ys) ys kept,
            )
    ]

dedup-AllIn : (xs : List Diagnostic) → AllIn (dedup same xs) xs
dedup-AllIn [] = tt
dedup-AllIn (x ∷ xs) = (ground (arith, diagnostic_eq_refl x), dedup_after-AllIn x xs)

pub AllIn-sort : (ds xs : List Diagnostic) → AllIn ds xs → AllIn (sort line_before ds) xs
AllIn-sort ds [] h = tt
AllIn-sort ds (x ∷ xs) h =
    (any-sort line_before (λ e. diagnostic_eq e x) ds ∙ h.0, AllIn-sort ds xs h.1)

pub AllIn-append : (as' bs xs : List Diagnostic) → AllIn bs xs → AllIn (as' ++ bs) xs
AllIn-append as' bs [] h = tt
AllIn-append as' bs (x ∷ xs) h =
    (ground (arith, any-append (λ e. diagnostic_eq e x) as' bs, h.0), AllIn-append as' bs xs h.1)

-- What is new is appended, and the rest was there.
AllIn-filter :
    (as' bs xs : List Diagnostic)
    → AllIn bs (filter (λ d. not (is_in as' d)) xs)
    → AllIn (as' ++ bs) xs
AllIn-filter as' bs [] h = tt
AllIn-filter as' bs (x ∷ xs) h = elim (Bool-cases (is_in as' x)) [
  | inl e ↦
      let old : filter (λ d. not (is_in as' d)) (x ∷ xs) ≡ filter (λ d. not (is_in as' d)) xs =
        rw e refl in
      (
        ground (arith, any-append (λ e. diagnostic_eq e x) as' bs),
        AllIn-filter as' bs xs (subst (AllIn bs) old h),
      )
  | inr e ↦
      let new : filter (λ d. not (is_in as' d)) (x ∷ xs) ≡ x ∷ filter (λ d. not (is_in as' d)) xs =
        rw e refl in
      let h' = subst (AllIn bs) new h in
      (
        ground (arith, any-append (λ e. diagnostic_eq e x) as' bs, h'.0),
        AllIn-filter as' bs xs h'.1,
      )
]

pub AllIn-self : (xs : List Diagnostic) → AllIn xs xs
AllIn-self [] = tt
AllIn-self (x ∷ xs) = (ground (arith, diagnostic_eq_refl x), AllIn-weaken x xs xs (AllIn-self xs))

pub followups-AllIn : (ds report : List Diagnostic) → AllIn (ds ++ followups ds report) report
unfolding followups
followups-AllIn ds report =
    AllIn-filter ds _ report (dedup-AllIn (filter (λ d. not (is_in ds d)) report))

nothing_new : (ds xs : List Diagnostic) → AllIn ds xs → filter (λ d. not (is_in ds d)) xs ≡ []
nothing_new ds [] h = refl
nothing_new ds (x ∷ xs) h = rw h.0 (nothing_new ds xs h.1)

pub followups-nil : (ds xs : List Diagnostic) → AllIn ds xs → followups ds xs ≡ []
unfolding followups
followups-nil ds xs h = rw (nothing_new ds xs h) refl

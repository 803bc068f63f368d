-- ===== src/Git/Signs.antt =====
-- Which lines get a sign: `signs_in_range` of crates/maple_core/src/tools/git/mod.rs.
use mathlib.Core.List.{map-append}
use vim_clap.Common.{
  ltb→lt, ◌==◌, some, ◌<◌, ◌≢◌, leb, map, zero, sym, ltb, inr, ap, ◌∙◌, inl, Bool-cases, [], suc,
  arith, ◌-◌, ◌∷◌, min, ◌++◌, filter, max, List, ◌≡◌, ◌+◌, Bool, ℕ, refl,
}
use vim_clap.Git.{
  modified_lines, added_lines, added_sign, modified_removed_sign, modified_sign,
  modified_and_added_lines, modified_and_removed_lines, Hunk, Range, range, lines_from, contains,
  intersection, SignType, signs_of_range, sign_of_line, Modification, signs_in_range, modification,
  change_type,
}

filter-append {ℓ} :
    {A : Type ℓ} (p : A → Bool) (xs ys : List A) → filter p (xs ++ ys) ≡ filter p xs ++ filter p ys
filter-append p [] ys = refl
filter-append p (x ∷ xs) ys = ground (arith, filter-append p xs ys)

lines-cong : {s s' k k' : ℕ} → s ≡ s' → k ≡ k' → lines_from s k ≡ lines_from s' k'
lines-cong h k = cc

lines_from-add : (a m n : ℕ) → lines_from a (m + n) ≡ lines_from a m ++ lines_from (a + m) n
lines_from-add a zero n =
    lines-cong {s = a} {s' = a + 0} {k = 0 + n} {k' = n} (omega arith) (omega arith)
lines_from-add a (suc m) n =
    let shifted = lines-cong {s = suc a + m} {s' = a + suc m} {k = n} {k' = n} (omega arith) refl in
    lines-cong {s = a} {s' = a} {k = suc m + n} {k' = suc (m + n)} refl (omega arith)
    ∙ ap (◌∷◌ a) (lines_from-add (suc a) m n ∙ ap (λ l. lines_from (suc a) m ++ l) shifted)

-- The lines of a range that are visible.
window :
    (v : Range) (a n : ℕ)
    → lines_from (max a v.start) (min (a + n) v.end - max a v.start)
      ≡ filter (contains v) (lines_from a n)
window v a zero = lines-cong {k' = 0} refl (omega arith)
window v a (suc n) = elim (Bool-cases (contains v a)) [
  | inl p ↦ rw p (
      lines-cong {s' = a} {k' = suc (min (suc a + n) v.end - max (suc a) v.start)} (ground arith)
        (ground arith)
      ∙ ap (◌∷◌ a) (lines-cong {s' = max (suc a) v.start} (ground arith) refl ∙ window v (suc a) n))
  | inr p ↦ rw p (elim (Bool-cases (ltb a v.start)) [
    | inl q ↦ lines-cong (ground arith) (ground arith) ∙ window v (suc a) n
    | inr q ↦
        lines-cong {k' = 0} refl (ground arith)
        ∙ sym (lines-cong {s = max (suc a) v.start} {k' = 0} refl (ground arith))
        ∙ window v (suc a) n
  ])
]

abbrev pub sign_lines : List (ℕ × SignType) → List ℕ
sign_lines = map (λ p. p.0)

sign_lines-same : (sign : SignType) (ls : List ℕ) → sign_lines (map (λ l. (l, sign)) ls) ≡ ls
sign_lines-same sign [] = refl
sign_lines-same sign (l ∷ ls) = ap (◌∷◌ l) (sign_lines-same sign ls)

-- The visible lines of a range get the range's sign.
sign_lines-range :
    (sign : SignType) (v : Range) (a n : ℕ)
    → sign_lines (signs_of_range sign (range a (a + n)) v) ≡ filter (contains v) (lines_from a n)
unfolding signs_of_range intersection
sign_lines-range sign v a n = elim (Bool-cases (leb (max a v.start) (min (a + n) v.end))) [
  | inl p ↦ rw (p, signs_of_range, intersection) (sign_lines-same sign _ ∙ window v a n)
  | inr p ↦
      rw (p, signs_of_range, intersection)
        (sym (lines-cong {s = max a v.start} {k' = 0} refl (ground arith)) ∙ window v a n)
]

sign_lines-line :
    (sign : SignType) (v : Range) (a : ℕ)
    → sign_lines (sign_of_line sign a v) ≡ filter (contains v) (a ∷ [])
unfolding sign_of_line
sign_lines-line sign v a = ground arith

two_ranges :
    (v : Range) (a m n : ℕ)
    → m < n
    → sign_lines
        (signs_in_range (modified_and_added_lines (range a (a + m)) (range (a + m) (a + n))) v)
      ≡ filter (contains v) (lines_from a n)
unfolding signs_in_range
two_ranges v a m n h =
    let e : a + m + (n - m) ≡ a + n = omega arith in
    let e' : m + (n - m) ≡ n = omega arith in
    map-append (λ p. p.0) (signs_of_range modified_sign (range a (a + m)) v) _
    ∙ ap (λ l. l ++ sign_lines (signs_of_range added_sign (range (a + m) (a + n)) v))
        (sign_lines-range modified_sign v a m)
    ∙ ap (λ l. filter (contains v) (lines_from a m) ++ l)
        (ap (λ k. sign_lines (signs_of_range added_sign (range (a + m) k) v)) (sym e)
          ∙ sign_lines-range added_sign v (a + m) (n - m))
    ∙ sym (filter-append (contains v) (lines_from a m) (lines_from (a + m) (n - m)))
    ∙ ap (filter (contains v)) (sym (lines_from-add a m (n - m)) ∙ ap (lines_from a) e')

last_line :
    (v : Range) (a n : ℕ)
    → n ≢ 0
    → sign_lines (signs_in_range (modified_and_removed_lines (range a (a + n - 1)) (a + n - 1)) v)
      ≡ filter (contains v) (lines_from a n)
unfolding signs_in_range
last_line v a n h =
    let e : a + n - 1 ≡ a + (n - 1) = ground arith in
    let e' : (n - 1) + 1 ≡ n = ground arith in
    ap (λ k. sign_lines (signs_in_range (modified_and_removed_lines (range a k) k) v)) e
    ∙ map-append (λ p. p.0) (signs_of_range modified_sign (range a (a + (n - 1))) v) _
    ∙ ap (λ l. l ++ sign_lines (sign_of_line modified_removed_sign (a + (n - 1)) v))
        (sign_lines-range modified_sign v a (n - 1))
    ∙ ap (λ l. filter (contains v) (lines_from a (n - 1)) ++ l)
        (sign_lines-line modified_removed_sign v (a + (n - 1)))
    ∙ sym (filter-append (contains v) (lines_from a (n - 1)) (lines_from (a + (n - 1)) 1))
    ∙ ap (filter (contains v)) (sym (lines_from-add a (n - 1) 1) ∙ ap (lines_from a) e')

-- The signs of a hunk that has lines in the new file: the visible ones among these lines, each once and
-- in their order, whatever part of the buffer is visible.
pub signs_in_range-lines :
    (h : Hunk) (v : Range)
    → h.new_count ≢ 0
    → (m : Modification) × (modification h ≡ some m)
      × (sign_lines (signs_in_range m v) ≡ filter (contains v) (lines_from h.new_start h.new_count))
unfolding modification change_type signs_in_range
signs_in_range-lines h v n = elim (Bool-cases (h.old_count == 0)) [
  | inl a ↦ (
    added_lines (range h.new_start (h.new_start + h.new_count)),
    ground arith,
    sign_lines-range _ v h.new_start h.new_count,
  )
  | inr a ↦ elim (Bool-cases (h.old_count == h.new_count)) [
    | inl c ↦ (
      modified_lines (range h.new_start (h.new_start + h.new_count)),
      ground arith,
      sign_lines-range _ v h.new_start h.new_count,
    )
    | inr c ↦ elim (Bool-cases (ltb h.old_count h.new_count)) [
      | inl d ↦ (
        modified_and_added_lines (range h.new_start (h.new_start + h.old_count))
            (range (h.new_start + h.old_count) (h.new_start + h.new_count)),
        ground arith,
        two_ranges v h.new_start h.old_count h.new_count (ltb→lt _ _ d),
      )
      | inr d ↦ (
        modified_and_removed_lines (range h.new_start (h.new_start + h.new_count - 1))
            (h.new_start + h.new_count - 1),
        ground arith,
        last_line v h.new_start h.new_count n,
      )
    ]
  ]
]

-- ===== src/Trimmer/Left.antt =====
-- A text that is cut on the left by crates/printer/src/trimmer/v1.rs: it fits, and its highlights are on
-- the chars that were highlighted.
use vim_clap.Common.{
  ℕ, zero, suc, ◌+◌, ◌-◌, ◌≤◌, ◌≡◌, refl, sym, ap, ◌∙◌, true, false, Option, List, [], ◌∷◌, map,
  filter, drop, length, get_elem?, arith, Bool-cases, inl, inr, ltb, leb, ◌&&◌,
}
use vim_clap.Text.{Text}
use vim_clap.Trimmer.{
  dots, dots_len, display_width, narrow, trim_left, left_indices, trimmed_left, left, sub_usize,
  add_usize,
}
use mathlib.Core.Path.{subst}

drop-nil {ℓ} : {A : Type ℓ} (n : ℕ) → drop {A = A} n [] ≡ []
drop-nil zero = refl
drop-nil (suc n) = refl

drop-drop {ℓ} : {A : Type ℓ} (m n : ℕ) (xs : List A) → drop n (drop m xs) ≡ drop (m + n) xs
drop-drop zero n xs = ap (λ k. drop k xs) (omega arith)
drop-drop (suc m) n [] = drop-nil n ∙ sym (drop-nil (suc m + n))
drop-drop (suc m) n (x ∷ xs) =
    let e : suc (m + n) ≡ suc m + n = omega arith in drop-drop m n xs ∙ ap (λ k. drop k (x ∷ xs)) e

get_elem?-drop {ℓ} :
    {A : Type ℓ} (n k : ℕ) (xs : List A) → get_elem? (drop n xs) k ≡ get_elem? xs (n + k)
get_elem?-drop zero k xs = ap (get_elem? xs) (omega arith)
get_elem?-drop (suc n) k [] = refl
get_elem?-drop (suc n) k (x ∷ xs) =
    let e : suc (n + k) ≡ suc n + k = omega arith in
    get_elem?-drop n k xs ∙ ap (get_elem? (x ∷ xs)) e

module _ (char_width : ℕ → Option ℕ) (tabstop : ℕ) where
  narrow_lem :
      (width : ℕ) (text : Text) (trimmed_chars_len : ℕ)
      → (k : ℕ) × ((narrow char_width tabstop width text trimmed_chars_len).dropped
          ≡ trimmed_chars_len + k)
        × ((narrow char_width tabstop width text trimmed_chars_len).rest ≡ drop k text)
        × (display_width char_width tabstop
              (narrow char_width tabstop width text trimmed_chars_len).rest
            ≤ width)
  unfolding narrow
  narrow_lem width [] n = (0, omega arith, refl, omega arith)
  narrow_lem width (c ∷ text) n =
      elim (Bool-cases (ltb width (display_width char_width tabstop (c ∷ text)))) [
        | inl p ↦
            let (k, d, r, w) = narrow_lem width text (n + 1) in
            (suc k, rw p (omega (arith, d)), rw p r, rw p w)
        | inr p ↦ (0, rw p (omega arith), rw p refl, rw p (ground arith))
      ]

  trim_left_lem :
      (text : Text) (width : ℕ)
      → ((trim_left char_width tabstop text width).rest
          ≡ drop (trim_left char_width tabstop text width).dropped text)
        × (display_width char_width tabstop (trim_left char_width tabstop text width).rest ≤ width)
  unfolding trim_left
  trim_left_lem text width = elim (Bool-cases (ltb (add_usize width dots_len) (length text))) [
    | inl p ↦
        let diff = sub_usize (sub_usize (length text) width) dots_len in
        let (k, d, r, w) = narrow_lem width (drop diff text) diff in
        (rw p (r ∙ drop-drop diff k text ∙ ap (λ n. drop n text) (sym d)), rw p w)
    | inr p ↦
        let (k, d, r, w) = narrow_lem width text 0 in
        let e : k ≡ (narrow char_width tabstop width text 0).dropped = omega (arith, d) in
        (rw p (r ∙ ap (λ n. drop n text) e), rw p w)
  ]

highlights :
    (text : Text) (n : ℕ) (xs : List ℕ)
    → map (get_elem? (dots ∷ drop n text)) (left_indices n xs)
      ≡ map (get_elem? text) (filter (leb n) xs)
unfolding left_indices
highlights text n [] = refl
highlights text n (x ∷ xs) = elim (Bool-cases (leb n x)) [
  | inl p ↦
      let test : (leb n (x + dots_len) && ltb (dots_len - 1) (x + dots_len - n)) ≡ true =
        ground arith in
      let at : x + dots_len - n ≡ suc (x - n) = ground arith in
      let back : n + (x - n) ≡ x = ground arith in
      let head : get_elem? (dots ∷ drop n text) (x + dots_len - n) ≡ get_elem? text x =
        ap (get_elem? (dots ∷ drop n text)) at
        ∙ get_elem?-drop n (x - n) text
        ∙ ap (get_elem? text) back in
      rw (p, test) (rw head (ap (◌∷◌ (get_elem? text x)) (highlights text n xs)))
  | inr p ↦
      let test : (leb n (x + dots_len) && ltb (dots_len - 1) (x + dots_len - n)) ≡ false =
        ground arith in
      rw (p, test) (highlights text n xs)
]

module _ (char_width : ℕ → Option ℕ) (tabstop : ℕ) where
  -- A text that is cut on the left is the dots and a rest of the text that fits the width; `trim_info`
  -- tells the number of chars that are missing; and the highlights are on the same chars as in the
  -- text, where these are left, in their order.
  pub trimmed_left-highlights :
      (text : Text) (indices : List ℕ) (width : ℕ)
      → (n : ℕ) × ((trimmed_left char_width tabstop text indices width).trim_info ≡ left n)
        × ((trimmed_left char_width tabstop text indices width).trimmed_text ≡ dots ∷ drop n text)
        × (display_width char_width tabstop (drop n text) ≤ width)
        × (map
              (get_elem? (dots ∷ drop n text))
              (trimmed_left char_width tabstop text indices width).indices
            ≡ map (get_elem? text) (filter (leb n) indices))
  unfolding trimmed_left
  trimmed_left-highlights text indices width =
      let (r, w) = trim_left_lem char_width tabstop text width in
      let n = (trim_left char_width tabstop text width).dropped in
      (
        n,
        refl,
        ap (◌∷◌ dots) r,
        subst (λ t. display_width char_width tabstop t ≤ width) r w,
        highlights text n indices,
      )

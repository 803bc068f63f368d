-- ===== src/Utils/ByteLines/Laws.antt =====
-- The lines give the text back.
use mathlib.Core.List.{append_assoc}
use vim_clap.Common.{
  ℕ, zero, suc, ◌≤◌, ◌<◌, ◌≡◌, refl, sym, ap, ◌∙◌, ◌⊎◌, inl, inr, Bool, true, ◌==◌, none, some,
  List, [], ◌∷◌, ◌++◌, length, all, map, not, ◌&&◌, arith, length-append, Option-cases, Bool-cases,
}
use vim_clap.Common.Options.{is_some}
use vim_clap.Text.{Text}
use vim_clap.Utils.ByteLines.{
  nl, Bytes, split_first, Utf8, cut_next, decode, next, collect_lines, lines,
}
use mathlib.Core.Path.{subst}

-- No newline stands in the bytes.
abbrev pub is_line : Bytes → Bool
is_line = all (λ c. not (c == nl))

-- The lines, each ended by a newline.
abbrev pub unlines : List Bytes → Bytes
unlines [] = []
unlines (l ∷ ls) = l ++ nl ∷ unlines ls

split_first-some :
    (t a b : Bytes) → split_first t ≡ some (a, b) → (t ≡ a ++ nl ∷ b) × (is_line a ≡ true)
unfolding split_first
split_first-some [] a b h = ground arith
split_first-some (c ∷ cs) a b h = elim (Bool-cases (c == nl)) [
  | inl e ↦ ground arith
  | inr e ↦ elim (Option-cases (split_first cs)) [
    | inl f ↦ absurd (ground (arith, f))
    | inr ((a', b'), f) ↦ ground (arith, f, split_first-some cs a' b' f)
  ]
]

split_first-none : (t : Bytes) → split_first t ≡ none → is_line t ≡ true
unfolding split_first
split_first-none [] h = refl
split_first-none (c ∷ cs) h = ground (arith, split_first-none cs)

cut_next-rest :
    (t line rest : Bytes)
    → cut_next t ≡ some (line, rest)
    → (is_line line ≡ true)
      × (length rest < length t)
      × ((t ≡ line ++ nl ∷ rest) ⊎ ((t ≡ line) × (rest ≡ [])))
unfolding cut_next
cut_next-rest [] line rest h = absurd (ground arith)
cut_next-rest (c ∷ cs) line rest h = elim (Option-cases (split_first (c ∷ cs))) [
  | inl e ↦
      let whole = split_first-none (c ∷ cs) e in
      let same : (c ∷ cs ≡ line) × (rest ≡ []) = ground (arith, e) in
      (ground (arith, whole, same), ground (arith, same), inr same)
  | inr ((a, b), e) ↦
      let (split, clean) = split_first-some (c ∷ cs) a b e in
      let same : (a ≡ line) × (b ≡ rest) = ground (arith, e) in
      let cut : c ∷ cs ≡ line ++ nl ∷ rest =
        split ∙ ap (λ x. x ++ nl ∷ b) same.0 ∙ ap (λ x. line ++ nl ∷ x) same.1 in
      (
        subst (λ x. is_line x ≡ true) same.0 clean,
        omega (arith, ap length cut, length-append line (nl ∷ rest)),
        inl cut,
      )
]

-- The bytes of the lines, on fuel.
unfoldable cut_lines : ℕ → Bytes → List Bytes
unfolding cut_next
cut_lines zero text = []
cut_lines (suc fuel) text = elim (cut_next text) [
  | none ↦ []
  | some (line, rest) ↦ line ∷ cut_lines fuel rest
]

-- The text, with a newline at its end where it has none.
Restores : Bytes → List Bytes → Type 0
Restores t ls = (unlines ls ≡ t) ⊎ (unlines ls ≡ t ++ nl ∷ [])

cut_lines-nil : (fuel : ℕ) → cut_lines fuel [] ≡ []
unfolding cut_lines cut_next
cut_lines-nil zero = refl
cut_lines-nil (suc fuel) = refl

cut_lines-Restores :
    (fuel : ℕ) (t : Bytes)
    → length t ≤ fuel
    → Restores t (cut_lines fuel t) × (all is_line (cut_lines fuel t) ≡ true)
unfolding cut_lines Restores
cut_lines-Restores zero [] h = (inl refl, refl)
cut_lines-Restores zero (c ∷ cs) h = absurd (omega arith)
cut_lines-Restores (suc fuel) t h = elim (Option-cases (cut_next t)) [
  | inl e ↦ rw (e, cut_lines) (inl (sym (empty t e)), refl)
  | inr ((line, rest), e) ↦
      let (clean, shorter, cut) = cut_next-rest t line rest e in
      let (ih, lines_ok) = cut_lines-Restores fuel rest (omega arith) in
      rw (e, cut_lines)
        (
          extend line rest t (cut_lines fuel rest) cut
              (λ r. ap (cut_lines fuel) r ∙ cut_lines-nil fuel) ih,
          ground (arith, clean, lines_ok),
        )
]
  where
    empty : (t : Bytes) → cut_next t ≡ none → t ≡ []
    empty [] h = refl
    empty (c ∷ cs) h = ground arith

    extend :
        (line rest t : Bytes) (ls : List Bytes)
        → (t ≡ line ++ nl ∷ rest) ⊎ ((t ≡ line) × (rest ≡ []))
        → (rest ≡ [] → ls ≡ [])
        → Restores rest ls
        → Restores t (line ∷ ls)
    extend line rest t ls (inl cut) nothing ih = elim ih [
      | inl e ↦ inl (ap (λ x. line ++ nl ∷ x) e ∙ sym cut)
      | inr e ↦ inr (
          ap (λ x. line ++ nl ∷ x) e
          ∙ sym (append_assoc line (nl ∷ rest) (nl ∷ []))
          ∙ ap (λ x. x ++ nl ∷ []) (sym cut))
    ]
    extend line rest t ls (inr (e, r)) nothing ih =
        inr (ap (λ x. line ++ nl ∷ unlines x) (nothing r) ∙ ap (λ x. x ++ nl ∷ []) (sym e))

-- What the standard library documents of UTF-8: a text that is decoded has the bytes that it was decoded from, and
-- bytes with a newline are UTF-8 just if those before and behind it are.
pub record IsUtf8 (u : Utf8) (as_bytes : Text → Bytes) : Type 0 where
  pub encoded : (b : Bytes) (s : Text) → u.from_utf8 b ≡ some s → as_bytes s ≡ b
  pub parts :
      (a b : Bytes)
      → is_some (u.from_utf8 (a ++ nl ∷ b)) ≡ (is_some (u.from_utf8 a) && is_some (u.from_utf8 b))

module _ (u : Utf8) where
  collect_lines-cut :
      (fuel : ℕ) (t : Bytes) → collect_lines u fuel t ≡ map (decode u) (cut_lines fuel t)
  unfolding collect_lines cut_lines next
  collect_lines-cut zero t = refl
  collect_lines-cut (suc fuel) t = elim (Option-cases (cut_next t)) [
    | inl e ↦ rw (e, collect_lines, cut_lines) refl
    | inr ((line, rest), e) ↦
        rw (e, collect_lines, cut_lines) (ap (◌∷◌ (decode u line)) (collect_lines-cut fuel rest))
  ]

  module _ (as_bytes : Text → Bytes) (law : IsUtf8 u as_bytes) where
    decode-bytes : (b : Bytes) → is_some (u.from_utf8 b) ≡ true → as_bytes (decode u b) ≡ b
    decode-bytes b h = elim (Option-cases (u.from_utf8 b)) [
      | inl e ↦ absurd (ground (arith, e))
      | inr (s, e) ↦
          ap (λ o. as_bytes (elim o [ some s ↦ s | none ↦ u.from_utf8_lossy b ])) e
          ∙ law.encoded b s e
    ]

    -- The line is UTF-8, and what is left is or is empty.
    line-is_some :
        (t line rest : Bytes)
        → (t ≡ line ++ nl ∷ rest) ⊎ ((t ≡ line) × (rest ≡ []))
        → is_some (u.from_utf8 t) ≡ true
        → (is_some (u.from_utf8 line) ≡ true) × ((is_some (u.from_utf8 rest) ≡ true) ⊎ (rest ≡ []))
    line-is_some t line rest (inl e) h =
        let both = sym (law.parts line rest) ∙ ap (λ t. is_some (u.from_utf8 t)) (sym e) ∙ h in
        (ground (arith, both), inl (ground (arith, both)))
    line-is_some t line rest (inr (e, r)) h = (ap (λ t. is_some (u.from_utf8 t)) (sym e) ∙ h, inr r)

    cut_lines-bytes :
        (fuel : ℕ) (t : Bytes)
        → (is_some (u.from_utf8 t) ≡ true) ⊎ (t ≡ [])
        → map as_bytes (map (decode u) (cut_lines fuel t)) ≡ cut_lines fuel t
    unfolding cut_lines
    cut_lines-bytes zero t h = refl
    cut_lines-bytes (suc fuel) t (inr e) =
        ap (λ t. map as_bytes (map (decode u) (cut_lines (suc fuel) t))) e
        ∙ ap (λ ls. map as_bytes (map (decode u) ls)) (cut_lines-nil (suc fuel))
        ∙ sym (ap (cut_lines (suc fuel)) e ∙ cut_lines-nil (suc fuel))
    cut_lines-bytes (suc fuel) t (inl h) = elim (Option-cases (cut_next t)) [
      | inl e ↦ rw (e, cut_lines) refl
      | inr ((line, rest), e) ↦
          let (clean, shorter, cut) = cut_next-rest t line rest e in
          let (valid, left) = line-is_some t line rest cut h in
          rw (e, cut_lines)
            (ap (λ l. l ∷ map as_bytes (map (decode u) (cut_lines fuel rest)))
                (decode-bytes line valid)
              ∙ ap (◌∷◌ line) (cut_lines-bytes fuel rest left))
    ]

    -- The bytes of a text that is UTF-8 are those of its lines, each ended by a newline, but for a newline at the
    -- end of the text; no line holds a newline. UTF-8 is as the standard library documents it. The fuel is
    -- enough, as each line is shorter than the text it is cut from.
    pub lines-unlines :
        (t : Bytes)
        → is_some (u.from_utf8 t) ≡ true
        → ((unlines (map as_bytes (lines u t)) ≡ t)
            ⊎ (unlines (map as_bytes (lines u t)) ≡ t ++ nl ∷ []))
          × (all is_line (map as_bytes (lines u t)) ≡ true)
    unfolding lines Restores
    lines-unlines t h =
        subst (λ ls. ((unlines ls ≡ t) ⊎ (unlines ls ≡ t ++ nl ∷ [])) × (all is_line ls ≡ true))
          (sym (
            ap (map as_bytes) (collect_lines-cut (length t) t)
            ∙ cut_lines-bytes (length t) t (inl h)))
          (cut_lines-Restores (length t) t (omega arith))

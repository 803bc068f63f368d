-- ===== src/Printer/Full.antt =====
-- The full text of a displayed line of crates/printer/src/lib.rs.
use vim_clap.Common.{
  is_empty, not, filter, map, if◌then◌else◌, ℕ, zero, suc, ◌+◌, ◌≤◌, ◌≡◌, refl, sym, ap, ◌∙◌, Bool,
  true, false, Option, some, none, List, [], ◌∷◌, get_elem?, arith, inl, inr, ltb, ◌==◌, ◌⊎◌,
}
use vim_clap.Common.Options.{◌>>=◌, some-bind}
use vim_clap.Text.{Text, byte_len}
use vim_clap.Types.SourceItem.{MatchedItem, display_text_of, output_text_of}
use vim_clap.Trimmer.{Trim, untrimmed, trimmed, panicked}
use vim_clap.Printer.{
  LinesTruncatedMap, full_line, DisplayLines, get_line, max_line_len, truncate_line_v1,
  truncate_item, truncated_as, truncate_items, truncate_item_output_text, skipped_or_offset,
  no_icon, Icons, convert_items, convert, to_display_lines,
}
use mathlib.Core.Path.{subst}
use vim_clap.Utils.{char_indices_to_byte_indices}

full_line-other :
    (is_cut : Bool) (k n : ℕ) (t : Text) (rest : LinesTruncatedMap)
    → (n == k) ≡ false
    → full_line n (if is_cut then (k, t) ∷ rest else rest) ≡ full_line n rest
unfolding full_line
full_line-other true k n t rest h = rw h refl
full_line-other false k n t rest h = refl

full_line-same :
    (k : ℕ) (t : Text) (rest : LinesTruncatedMap) → full_line k ((k, t) ∷ rest) ≡ some t
unfolding full_line
full_line-same k t rest = ground arith

module _ {I : Type 0} (char_width : ℕ → Option ℕ) (output_text : I → Text)
    (truncation_offset : I → Option ℕ) where
  -- An item of at most 500 bytes is trimmed, or displayed as it is.
  abbrev Displayed : MatchedItem I → MatchedItem I × Bool → Type 0
  Displayed m r =
      (r.1 ≡ true) ⊎ ((r.1 ≡ false) × (r.0.display_text ≡ some (output_text_of output_text m)))

  truncate_item-short :
      (winwidth : ℕ) (skipped : Option ℕ) (m : MatchedItem I) {r : MatchedItem I × Bool}
      → byte_len (output_text_of output_text m) ≤ max_line_len
      → truncate_item char_width output_text truncation_offset winwidth skipped m ≡ some r
      → Displayed m r
  unfolding truncate_item
  truncate_item-short winwidth skipped m {r} h e =
      let short : ltb max_line_len (byte_len (output_text_of output_text m)) ≡ false =
        ground arith in
      by_cut
        (truncate_line_v1 char_width (output_text_of output_text m) m.indices winwidth
          (skipped_or_offset skipped (truncation_offset m.item)))
        (rw short at e)
    where
      by_cut :
          (cut : Trim) → truncated_as (output_text_of output_text m) m cut ≡ some r → Displayed m r
      by_cut untrimmed e = inr (ground arith, ground arith)
      by_cut (trimmed t) e = inl (ground arith)
      by_cut panicked e = ground arith

  -- One round of the loop.
  pub record Round (m : MatchedItem I) (ms : List (MatchedItem I)) (lnum winwidth : ℕ)
      (skipped : Option ℕ) (r : List (MatchedItem I) × LinesTruncatedMap) : Type 0 where
    pub one : MatchedItem I × Bool
    pub others : List (MatchedItem I) × LinesTruncatedMap
    pub first : truncate_item char_width output_text truncation_offset winwidth skipped m ≡ some one
    pub rest :
        truncate_items char_width output_text truncation_offset (suc lnum) winwidth skipped ms
        ≡ some others
    pub result :
        (
          one.0 ∷ others.0,
          if one.1 then (suc lnum, output_text_of output_text m) ∷ others.1 else others.1,
        )
        ≡ r

  truncate_items-Round :
      (m : MatchedItem I) (ms : List (MatchedItem I)) (lnum winwidth : ℕ) (skipped : Option ℕ)
      {r : List (MatchedItem I) × LinesTruncatedMap}
      → truncate_items char_width output_text truncation_offset lnum winwidth skipped (m ∷ ms)
        ≡ some r
      → Round m ms lnum winwidth skipped r
  unfolding truncate_items
  truncate_items-Round m ms lnum winwidth skipped e =
      let (one, first, e') =
        some-bind (truncate_item char_width output_text truncation_offset winwidth skipped m) _ e in
      let (others, rest, e'') =
        some-bind
          (truncate_items char_width output_text truncation_offset (suc lnum) winwidth skipped ms) _
          e' in
      record { one = one; others = others; first = first; rest = rest; result = cc e'' }

  -- The numbers of the lines that are cut are those of the loop.
  full_line-truncate_items :
      (ms : List (MatchedItem I)) (lnum winwidth n : ℕ) (skipped : Option ℕ)
      {r : List (MatchedItem I) × LinesTruncatedMap}
      → truncate_items char_width output_text truncation_offset lnum winwidth skipped ms ≡ some r
      → n ≤ lnum
      → full_line n r.1 ≡ none
  unfolding truncate_items full_line
  full_line-truncate_items [] lnum winwidth n skipped {r} e h =
      let same : ([], []) ≡ r = cc e in subst (λ r. full_line n r.1 ≡ none) same refl
  full_line-truncate_items (m ∷ ms) lnum winwidth n skipped e h =
      let t = truncate_items-Round m ms lnum winwidth skipped e in
      let ih = full_line-truncate_items ms (suc lnum) winwidth n skipped t.rest (omega arith) in
      subst (λ r. full_line n r.1 ≡ none) t.result
        (full_line-other t.one.1 (suc lnum) n _ t.others.1 (ground arith) ∙ ih)

  -- The full text of a line is in the map, or it is what the line displays.
  abbrev IsThere : ℕ → ℕ → MatchedItem I → List (MatchedItem I) × LinesTruncatedMap → Type 0
  IsThere lnum n m r =
      (full_line lnum r.1 ≡ some (output_text_of output_text m))
      ⊎ ((full_line lnum r.1 ≡ none)
          × ((m' : MatchedItem I) × (get_elem? r.0 n ≡ some m')
              × (m'.display_text ≡ some (output_text_of output_text m))))

  first-IsThere :
      (lnum : ℕ) (x : MatchedItem I) (one : MatchedItem I × Bool)
      (others : List (MatchedItem I) × LinesTruncatedMap)
      → Displayed x one
      → full_line (suc lnum) others.1 ≡ none
      → IsThere (suc lnum) 0 x (
        one.0 ∷ others.0,
        if one.1 then (suc lnum, output_text_of output_text x) ∷ others.1 else others.1,
      )
  first-IsThere lnum x one others (inl p) e = inl (
      ap
        (λ c.
          full_line (suc lnum)
            (if c then (suc lnum, output_text_of output_text x) ∷ others.1 else others.1))
        p
      ∙ full_line-same (suc lnum) (output_text_of output_text x) others.1)
  first-IsThere lnum x one others (inr (p, q)) e = inr (
    ap
          (λ c.
            full_line (suc lnum)
              (if c then (suc lnum, output_text_of output_text x) ∷ others.1 else others.1))
          p
        ∙ e,
    (one.0, refl, q),
  )

  later-IsThere :
      (k lnum n : ℕ) (x m : MatchedItem I) (one : MatchedItem I × Bool)
      (others : List (MatchedItem I) × LinesTruncatedMap)
      → (k == suc lnum) ≡ false
      → IsThere k n m others
      → IsThere k (suc n) m (
        one.0 ∷ others.0,
        if one.1 then (suc lnum, output_text_of output_text x) ∷ others.1 else others.1,
      )
  later-IsThere k lnum n x m one others h (inl e) =
      inl (full_line-other one.1 (suc lnum) k _ others.1 h ∙ e)
  later-IsThere k lnum n x m one others h (inr (e, found)) =
      inr (full_line-other one.1 (suc lnum) k _ others.1 h ∙ e, found)

  truncate_items-IsThere :
      (ms : List (MatchedItem I)) (lnum winwidth n : ℕ) (skipped : Option ℕ) (m : MatchedItem I)
      {r : List (MatchedItem I) × LinesTruncatedMap}
      → truncate_items char_width output_text truncation_offset lnum winwidth skipped ms ≡ some r
      → get_elem? ms n ≡ some m
      → byte_len (output_text_of output_text m) ≤ max_line_len
      → IsThere (suc (lnum + n)) n m r
  truncate_items-IsThere [] lnum winwidth n skipped m e g h = ground arith
  truncate_items-IsThere (x ∷ ms) lnum winwidth zero skipped m {r} e g h =
      let t = truncate_items-Round x ms lnum winwidth skipped e in
      let same : x ≡ m = cc g in
      let zero_more : suc lnum ≡ suc (lnum + 0) = omega arith in
      subst (λ k. IsThere k 0 m r) zero_more
        (subst (λ m. IsThere (suc lnum) 0 m r) same
          (subst (IsThere (suc lnum) 0 x) t.result (
            first-IsThere lnum x t.one t.others
              (truncate_item-short winwidth skipped x
                (subst (λ m. byte_len (output_text_of output_text m) ≤ max_line_len) (sym same) h)
                t.first)
              (full_line-truncate_items ms (suc lnum) winwidth (suc lnum) skipped t.rest
                (omega arith)))))
  truncate_items-IsThere (x ∷ ms) lnum winwidth (suc n) skipped m {r} e g h =
      let t = truncate_items-Round x ms lnum winwidth skipped e in
      let ih = truncate_items-IsThere ms (suc lnum) winwidth n skipped m t.rest g h in
      let shifted : suc (suc lnum + n) ≡ suc (lnum + suc n) = omega arith in
      subst (λ k. IsThere k (suc n) m r) shifted
        (subst (IsThere (suc (suc lnum + n)) (suc n) m) t.result
          (later-IsThere (suc (suc lnum + n)) lnum n x m t.one t.others (ground arith) ih))

module _ {I : Type 0} (icons : Icons I) (output_text : I → Text) where
  -- Without icons each line displays its item, and the full texts stay.
  convert_items_lem :
      (ms : List (MatchedItem I)) (lnum : ℕ) (map' : LinesTruncatedMap)
      → (d : DisplayLines) × (convert_items icons output_text no_icon lnum ms map' ≡ some d)
        × (d.lines ≡ map (display_text_of output_text) ms)
        × (d.truncated_map ≡ map')
  unfolding convert_items
  convert_items_lem [] lnum map' = (_, refl, refl, refl)
  convert_items_lem (m ∷ ms) lnum map' =
      let (d, e, l, t) = convert_items_lem ms (suc lnum) map' in
      (
        record d {
          lines = display_text_of output_text m ∷ d.lines;
          indices =
              char_indices_to_byte_indices (display_text_of output_text m) m.indices ∷ d.indices;
        },
        rw e refl,
        ap (◌∷◌ (display_text_of output_text m)) l,
        t,
      )

display_text_of_lem :
    {I : Type 0} (output_text : I → Text) (m : MatchedItem I) {t : Text}
    → m.display_text ≡ some t
    → display_text_of output_text m ≡ t
unfolding display_text_of
display_text_of_lem output_text m e = rw (e, display_text_of) refl

-- The indices that are not empty.
abbrev highlighted : DisplayLines → DisplayLines
highlighted d = record d { indices = filter (λ is. not (is_empty is)) d.indices }

get_line_lem :
    (d : DisplayLines) (n : ℕ) (t : Text)
    → (full_line (suc n) d.truncated_map ≡ some t)
      ⊎ ((full_line (suc n) d.truncated_map ≡ none) × (get_elem? d.lines n ≡ some t))
    → get_line d (suc n) ≡ some t
unfolding get_line
get_line_lem d n t (inl e) = rw (e, get_line) refl
get_line_lem d n t (inr (e, q)) = rw (e, get_line) q

get_elem?-map :
    {A B : Type 0} (f : A → B) (xs : List A) (n : ℕ) {x : A}
    → get_elem? xs n ≡ some x
    → get_elem? (map f xs) n ≡ some (f x)
get_elem?-map f [] n h = ground arith
get_elem?-map f (y ∷ ys) zero h = ap some (ap f (cc h))
get_elem?-map f (y ∷ ys) (suc n) h = get_elem?-map f ys n h

module _ {I : Type 0} (char_width : ℕ → Option ℕ) (icons : Icons I) (output_text : I → Text)
    (truncation_offset : I → Option ℕ) where
  -- Where no icon is added and long texts are truncated, `get_line` gives the full output text of every
  -- item whose output text has at most 500 bytes, whether its line is trimmed or not.
  pub to_display_lines-get_line :
      (width : ℕ) (ms : List (MatchedItem I)) (n : ℕ) (m : MatchedItem I) {d : DisplayLines}
      → to_display_lines char_width icons output_text truncation_offset
          (record { line_width = width; icon = no_icon; truncate_text = true })
          ms
        ≡ some d
      → get_elem? ms n ≡ some m
      → byte_len (output_text_of output_text m) ≤ max_line_len
      → get_line d (suc n) ≡ some (output_text_of output_text m)
  unfolding to_display_lines truncate_item_output_text convert
  to_display_lines-get_line width ms n m {d} e g h =
      let (r, cut, e') =
        some-bind (truncate_items char_width output_text truncation_offset 0 width none ms) _ e in
      let (d', same, lines, full) = convert_items_lem icons output_text r.0 0 r.1 in
      let shown : some (highlighted d') ≡ some d =
        ap (λ o. o >>= λ d. some (highlighted d)) (sym same) ∙ e' in
      let here : highlighted d' ≡ d = cc shown in
      let at : suc (0 + n) ≡ suc n = omega arith in
      let there =
        subst (λ k. IsThere char_width output_text truncation_offset k n m r) at
          (truncate_items-IsThere char_width output_text truncation_offset ms 0 width n none m cut g
            h) in
      subst (λ d. get_line d (suc n) ≡ some (output_text_of output_text m)) here
        (get_line_lem (highlighted d') n _ (elim there [
          | inl p ↦ inl (ap (full_line (suc n)) full ∙ p)
          | inr (p, (m', q, t)) ↦ inr (
            ap (full_line (suc n)) full ∙ p,
            ap (λ l. get_elem? l n) lines
                ∙ get_elem?-map (display_text_of output_text) r.0 n q
                ∙ ap some (display_text_of_lem output_text m' t),
          )
        ]))

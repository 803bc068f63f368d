-- ===== src/Ctags/Nearest.antt =====
-- The tag at the cursor is the nearest one: crates/maple_core/src/stdio_server/plugin/ctags.rs.
use mathlib.Core.Option
use mathlib.Core.Path.{subst}
use vim_clap.Common.{
  leb, ℕ, zero, suc, ◌≡◌, ◌≤◌, ◌<◌, refl, ap, sym, ◌∙◌, Bool, true, false, Option, none, some, List,
  [], ◌∷◌, map, get_elem?, ◌⊎◌, inl, inr, length, arith, Bool-cases,
}
use vim_clap.Common.Table.{value_at}
use vim_clap.Ctags.{
  move_with, move_in, redraw_status, update_winbar, set_current_symbol, BufferTag,
  BufferTag_discrete, TagCall, CtagsPlugin, Answers, Result, same_tag, cursor_index, cursor_tag,
  reset_winbar, show_tag, update_symbol, winbar_enabled_of, on_cursor_moved,
}

abbrev pub IsSorted : List ℕ → Type 0
IsSorted keys =
    (i j x y : ℕ) → i ≤ j → get_elem? keys i ≡ some x → get_elem? keys j ≡ some y → x ≤ y

-- What `binary_search` documents of its result.
abbrev pub IsPlace : List ℕ → ℕ → ℕ ⊎ ℕ → Type 0
IsPlace keys k (inl i) = get_elem? keys i ≡ some k
IsPlace keys k (inr i) =
    (i ≤ length keys)
    × ((j x : ℕ) → j < i → get_elem? keys j ≡ some x → x < k)
    × ((j x : ℕ) → i ≤ j → get_elem? keys j ≡ some x → k < x)

-- The tag stands at the line or in front of it, and no other one stands between; without a tag, all tags stand
-- behind the line.
abbrev pub IsNearest : List BufferTag → ℕ → Option BufferTag → Type 0
IsNearest tags line none =
    (j : ℕ) (u : BufferTag) → get_elem? tags j ≡ some u → line < u.line_number
IsNearest tags line (some t) =
    (t.line_number ≤ line)
    × ((j : ℕ) (u : BufferTag)
        → get_elem? tags j ≡ some u
        → (u.line_number ≤ t.line_number) ⊎ (line < u.line_number))

abbrev lines_of : List BufferTag → List ℕ
lines_of tags = map (λ t. t.line_number) tags

line_at :
    (tags : List BufferTag) (j : ℕ) (u : BufferTag)
    → get_elem? tags j ≡ some u
    → get_elem? (lines_of tags) j ≡ some u.line_number
line_at [] j u h = ground arith
line_at (t ∷ tags) zero u h = ap (λ o. Option.map (λ v. v.line_number) o) h
line_at (t ∷ tags) (suc j) u h = line_at tags j u h

tag_at :
    (tags : List BufferTag) (j : ℕ) → get_elem? tags j ≡ none → get_elem? (lines_of tags) j ≡ none
tag_at [] j h = refl
tag_at (t ∷ tags) zero h = ground arith
tag_at (t ∷ tags) (suc j) h = tag_at tags j h

out_of_range :
    (tags : List BufferTag) (j : ℕ) → get_elem? tags j ≡ none → length (lines_of tags) ≤ j
out_of_range [] j h = omega arith
out_of_range (t ∷ tags) zero h = ground arith
out_of_range (t ∷ tags) (suc j) h = omega (arith, out_of_range tags j h)

some_inj : {x y : ℕ} → ◌≡◌ {A = Option ℕ} (some x) (some y) → x ≡ y
some_inj h = ground arith

le_or_gt : (a b : ℕ) → (a ≤ b) ⊎ (b < a)
le_or_gt a b = elim (Bool-cases (leb a b)) [
  | inl e ↦ inl (ground arith)
  | inr e ↦ inr (ground arith)
]

module _ (tags : List BufferTag) (line : ℕ) where
  found-IsNearest :
      (i : ℕ) (o : Option BufferTag)
      → get_elem? tags i ≡ o
      → get_elem? (lines_of tags) i ≡ some line
      → IsNearest tags line o
  found-IsNearest i none e h = λ j u k. ground (arith, tag_at tags i e)
  found-IsNearest i (some t) e h =
      let at : t.line_number ≡ line = some_inj (sym (line_at tags i t e) ∙ h) in
      (
        omega arith,
        λ j u k. elim (le_or_gt u.line_number line) [
          | inl below ↦ inl (omega arith)
          | inr behind ↦ inr behind
        ],
      )

  front-IsNearest :
      (i : ℕ) (o : Option BufferTag)
      → get_elem? tags i ≡ o
      → IsSorted (lines_of tags)
      → IsPlace (lines_of tags) line (inr (suc i))
      → IsNearest tags line o
  front-IsNearest i none e s p = λ j u k. ground (arith, out_of_range tags i e, p.0)
  front-IsNearest i (some t) e s p = (
    omega (arith, p.1 i t.line_number (omega arith) (line_at tags i t e)),
    λ j u k. elim (le_or_gt j i) [
      | inl below ↦
          inl (s j i u.line_number t.line_number below (line_at tags j u k) (line_at tags i t e))
      | inr behind ↦ inr (p.2 j u.line_number (omega arith) (line_at tags j u k))
    ],
  )

  place-IsNearest :
      (r : ℕ ⊎ ℕ)
      → IsSorted (lines_of tags)
      → IsPlace (lines_of tags) line r
      → IsNearest tags line (elim (cursor_index r) [ none ↦ none | some idx ↦ get_elem? tags idx ])
  place-IsNearest (inl i) s p = found-IsNearest i (get_elem? tags i) refl p
  place-IsNearest (inr zero) s p = λ j u h. p.2 j u.line_number (omega arith) (line_at tags j u h)
  place-IsNearest (inr (suc i)) s p = front-IsNearest i (get_elem? tags i) refl s p

-- The handler succeeded, and the tag that it remembers is the nearest one.
abbrev pub IsShown : List BufferTag → ℕ → Result → Type 0
IsShown tags line r = (r.1 ≡ true) × IsNearest tags line r.0.last_cursor_tag

-- The tag that the plugin compares with is the same one.
same-tag : (o : Option BufferTag) (t : BufferTag) → same_tag o t ≡ true → o ≡ some t
unfolding same_tag
same-tag none t h = ground arith
same-tag (some last) t h =
    elim (BufferTag_discrete last t)
        as (λ d.
          (elim d [ yes p ↦ true | no p ↦ false ]) ≡ true
          → ◌≡◌ {A = Option BufferTag} (some last) (some t)) [
            | yes p ↦ λ h. ap (λ u. some u) p
            | no p ↦ λ h. ground arith
          ]
      h

module _ (search : List ℕ → ℕ → ℕ ⊎ ℕ) (a : Answers)
    (ok : (c : TagCall) → a.succeeds c ≡ true) where
  abbrev Remembers : Option BufferTag → Result → Type 0
  Remembers t r = (r.1 ≡ true) × (r.0.last_cursor_tag ≡ t)

  reset-Remembers :
      (w : Bool) (n : ℕ) (o : Option BufferTag) (g : CtagsPlugin)
      → g.last_cursor_tag ≡ none
      → Remembers none (reset_winbar search a w n o g)
  reset-Remembers w n none g h = (refl, h)
  reset-Remembers false n (some t) g h = (refl, h)
  reset-Remembers true n (some t) g h = rw (ok (update_winbar n none), ok redraw_status) (refl, h)

  show-Remembers :
      (n : ℕ) (w : Bool) (t : BufferTag) (g : CtagsPlugin)
      → Remembers (some t) (show_tag search a n w t g)
  show-Remembers n false t g =
      rw (ok (set_current_symbol n (some t)), ok redraw_status) (refl, refl)
  show-Remembers n true t g =
      rw (ok (set_current_symbol n (some t)), ok (update_winbar n (some t)), ok redraw_status)
        (refl, refl)

  update-Remembers :
      (n : ℕ) (w : Bool) (o : Option BufferTag) (g : CtagsPlugin)
      → Remembers o (update_symbol search a n w o g)
  update-Remembers n w none g =
      rw (ok (set_current_symbol n none)) (reset-Remembers w n g.last_cursor_tag _ refl)
  update-Remembers n w (some t) g = elim (Bool-cases (same_tag g.last_cursor_tag t)) [
    | inl e ↦ rw e (refl, same-tag g.last_cursor_tag t e)
    | inr e ↦ rw e (show-Remembers n w t g)
  ]

  -- Where the tags of a buffer are sorted by line, and the binary search gives the place that it documents, a
  -- move of the cursor, if Vim answers, succeeds, and the tag that is remembered is the nearest one: it stands
  -- at the line of the cursor or above it, and no other tag stands between; and there is none if all tags stand
  -- below the cursor.
  pub on_cursor_moved-IsNearest :
      (n line : ℕ) (tags : List BufferTag) (g : CtagsPlugin)
      → value_at n g.buf_tags ≡ some tags
      → a.curlnum ≡ some line
      → IsSorted (map (λ t. t.line_number) tags)
      → IsPlace (map (λ t. t.line_number) tags) line (search (map (λ t. t.line_number) tags) line)
      → IsShown tags line (on_cursor_moved search a n g)
  unfolding on_cursor_moved cursor_tag
  on_cursor_moved-IsNearest n line tags g b l s p =
      let g' : CtagsPlugin = record g {
        enable_winbar = some (winbar_enabled_of search a g.enable_winbar);
      } in
      let r =
        update-Remembers n (winbar_enabled_of search a g.enable_winbar)
          (cursor_tag search tags line) g' in
      let nearest : IsShown tags line (move_in search a n tags g' (some line)) = (
        r.0,
        subst (IsNearest tags line) (sym r.1)
            (place-IsNearest tags line (search (lines_of tags) line) s p),
      ) in
      subst (λ o. IsShown tags line (move_with search a n o g)) (sym b)
        (subst (λ c. IsShown tags line (move_in search a n tags g' c)) (sym l) nearest)

-- ===== src/Matcher/Positions.antt =====
-- The positions of a match of crates/matcher/src/lib.rs.
use vim_clap.Common.{
  ◌∙◌, [], is_empty, inr, inl, Bool-cases, arith, sym, false, true, dedup, ◌≡◌, ◌<◌, ◌==◌,
  dedup_after, ◌∷◌, ltb, List, ℕ,
}
use vim_clap.Common.Order.{sort-IsSorted, sort, IsSorted}
use vim_clap.Matcher.{
  find_in_item, matched, build, Found, merge, match_item, MatcherBuilder, Crates,
}
use vim_clap.Types.Rank.{MatchResult, extend_indices, sort_dedup}
use mathlib.Core.Path.{subst}
use vim_clap.Types.Query.{Query}
use vim_clap.Types.Item.{ClapItem}
use vim_clap.Types.SourceItem.{MatchedItem}
use vim_clap.Matcher.Accepts.{matched-injective, rank_item-matched, when_found-matched}

abbrev pub IsIncreasing : List ℕ → Type 0
IsIncreasing [] = Unit
IsIncreasing (x ∷ []) = Unit
IsIncreasing (x ∷ y ∷ ys) = (x < y) × IsIncreasing (y ∷ ys)

ltb_asym : (a b : ℕ) → ltb a b ≡ true → ltb b a ≡ false
ltb_asym a b h = ground arith

dedup_after-IsIncreasing :
    (x : ℕ) (ys : List ℕ) → IsSorted ltb (x ∷ ys) → IsIncreasing (x ∷ dedup_after ◌==◌ x ys)
dedup_after-IsIncreasing x [] h = tt
dedup_after-IsIncreasing x (y ∷ ys) (le, h) = elim (Bool-cases (x == y)) [
  | inl e ↦ rw e (dedup_after-IsIncreasing x ys (merged x y ys (ground arith) h))
  | inr e ↦ rw e (ground arith, dedup_after-IsIncreasing y ys h)
]
  where
    merged : (x y : ℕ) (ys : List ℕ) → x ≡ y → IsSorted ltb (y ∷ ys) → IsSorted ltb (x ∷ ys)
    merged x y ys e h = subst (λ z. IsSorted ltb (z ∷ ys)) (sym e) h

sort_dedup-IsIncreasing : (xs : List ℕ) → IsIncreasing (sort_dedup xs)
unfolding sort_dedup
sort_dedup-IsIncreasing xs = by_sorted (sort ltb xs) (sort-IsSorted ltb_asym xs)
  where
    by_sorted : (xs : List ℕ) → IsSorted ltb xs → IsIncreasing (dedup ◌==◌ xs)
    by_sorted [] h = tt
    by_sorted (x ∷ xs) h = dedup_after-IsIncreasing x xs h

module _ {F Regex : Type 0} (k : Crates F Regex) (b : MatcherBuilder) (q : Query)
    (item : ClapItem) where
  merge-IsIncreasing : (f : Found) → IsIncreasing (merge k (build k b q) item f).indices
  unfolding merge extend_indices
  merge-IsIncreasing f = elim (Bool-cases (is_empty f.word.1)) [
    | inr e ↦ rw e (sort_dedup-IsIncreasing _)
    | inl e ↦ elim (Bool-cases (is_empty f.fuzzy.1)) [
      | inl z ↦ rw (e, z) (sort_dedup-IsIncreasing f.exact.1)
      | inr z ↦ rw (e, z) (sort_dedup-IsIncreasing _)
    ]
  ]

  -- The highlighted positions of a match are strictly increasing, without repetition, where the item
  -- leaves the matcher's result as it is.
  pub match_item-IsIncreasing :
      {m : MatchedItem ClapItem}
      → ((r : MatchResult) → item.match_result_callback r ≡ r)
      → match_item k (build k b q) item ≡ matched m
      → IsIncreasing m.indices
  unfolding match_item
  match_item-IsIncreasing {m} same h =
      let (f, e) = when_found-matched (find_in_item k (build k b q) item) _ h in
      let (rank, r) =
        rank_item-matched k b q item (item.match_result_callback (merge k (build k b q) item f)) in
      let i : IsIncreasing (item.match_result_callback (merge k (build k b q) item f)).indices =
        subst (λ r. IsIncreasing r.indices) (sym (same _)) (merge-IsIncreasing f) in
      subst (λ m. IsIncreasing m.indices) (matched-injective (sym r ∙ e)) i

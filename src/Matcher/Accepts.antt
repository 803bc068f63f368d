-- ===== src/Matcher/Accepts.antt =====
-- `match_item` and `match_file_result` of crates/matcher/src/lib.rs with a matcher that was built:
-- which items are matched.
use vim_clap.Common.{
  arith, none, some, Option, inl, inr, ◌∙◌, ap, ◌≡◌, refl, Bool, true, false, List, ℕ, is_empty,
  Bool-cases,
}
use vim_clap.Common.Options.{is_some}
use vim_clap.Text.{Text, byte_len}
use vim_clap.Types.Rank.{Score, Rank, calculate_rank, RankCalculator_default, MatchResult}
use vim_clap.Types.Rank.Laws.{calculate_rank-new_calculator}
use vim_clap.Types.SourceItem.{new_item}
use vim_clap.Types.Item.{ClapItem}
use vim_clap.Types.Query.{Query}
use vim_clap.Matcher.Sound.{accepts, find_in_item-is_some}
use vim_clap.Matcher.{
  Crates, MatcherBuilder, build, Outcome, no_match, matched, panicked, find_in_item, rank_item,
  rank_file, find_in_file, match_item, match_file_result, merge, merge_file, MatchedFileResult,
  first_or_zero, last_or_zero, first_of, last_of, when_found, when_ranked,
}

module _ {A : Type 0} where
  abbrev pub is_matched : Outcome A → Bool
  is_matched no_match = false
  is_matched (matched a) = true
  is_matched panicked = false

  abbrev pub is_panicked : Outcome A → Bool
  is_panicked no_match = false
  is_panicked (matched a) = false
  is_panicked panicked = true

  is_matched-when_found :
      {B : Type 0} (o : Option B) (f : B → Outcome A)
      → ((x : B) → is_matched (f x) ≡ true)
      → is_matched (when_found o f) ≡ is_some o
  is_matched-when_found none f h = refl
  is_matched-when_found (some x) f h = h x

  is_panicked-when_found :
      {B : Type 0} (o : Option B) (f : B → Outcome A)
      → ((x : B) → is_panicked (f x) ≡ false)
      → is_panicked (when_found o f) ≡ false
  is_panicked-when_found none f h = refl
  is_panicked-when_found (some x) f h = h x

  pub when_found-matched :
      {B : Type 0} (o : Option B) (f : B → Outcome A) {m : A}
      → when_found o f ≡ matched m
      → (x : B) × (f x ≡ matched m)
  when_found-matched none f h = ground arith
  when_found-matched (some x) f h = (x, h)

  pub matched-injective : {a b : A} → matched a ≡ matched b → a ≡ b
  matched-injective h = cc h

ranks_default :
    (s : Score) (first_at last_at len : ℕ)
    → (rank : Rank) × (calculate_rank RankCalculator_default s first_at last_at len ≡ some rank)
unfolding calculate_rank RankCalculator_default
ranks_default s first_at last_at len = (_, refl)

module _ {F Regex : Type 0} (k : Crates F Regex) (b : MatcherBuilder) (q : Query) where
  ranks :
      (s : Score) (first_at last_at len : ℕ)
      → (rank : Rank) × (calculate_rank (build k b q).rank_calculator s first_at last_at len
          ≡ some rank)
  unfolding build
  ranks s first_at last_at len = elim (Bool-cases (is_empty b.rank_criteria)) [
    | inl e ↦ let (r, p) = ranks_default s first_at last_at len in (r, rw e p)
    | inr e ↦
        let (r, p, l) = calculate_rank-new_calculator b.rank_criteria s first_at last_at len in
        (r, rw e p)
  ]

  pub rank_item-matched :
      (item : ClapItem) (r : MatchResult)
      → (rank : Rank) × (rank_item k (build k b q) item r ≡ matched (new_item item rank r.indices))
  unfolding rank_item
  rank_item-matched item r =
      let (rank, e) =
        ranks r.score (first_or_zero r.indices) (last_or_zero r.indices) (byte_len item.raw_text) in
      (rank, ap (λ o. when_ranked o λ rank. new_item item rank r.indices) e)

  rank_file-matched :
      (line : Text) (r : Score × List ℕ × List ℕ)
      → (m : MatchedFileResult) × (rank_file k (build k b q) line r ≡ matched m)
  unfolding rank_file
  rank_file-matched line (s, is, js) =
      let (rank, e) = ranks s (first_of is js) (last_of js is) (byte_len line) in
      (
        _,
        ap
            (λ o.
              when_ranked o λ rank. record { rank = rank; exact_indices = is; fuzzy_indices = js })
            e,
      )

  -- A matcher that was built matches an item exactly if the item has a text, no inverse term matches
  -- the text, some word is found in it (or there are no words), every exact term is satisfied by it
  -- (a `^` term by its start and a `$` term by its end, without the white space there), and the
  -- part of it that the scope names is there and matches every fuzzy term.
  pub match_item-accepts :
      (item : ClapItem)
      → is_matched (match_item k (build k b q) item) ≡ accepts k (build k b q) item
  unfolding match_item
  match_item-accepts item =
      is_matched-when_found (find_in_item k (build k b q) item) _ (λ f.
        let (rank, e) =
          rank_item-matched item (item.match_result_callback (merge k (build k b q) item f)) in
        ap is_matched e)
      ∙ find_in_item-is_some k (build k b q) item

  -- The criteria of a matcher that was built fit its rank.
  pub match_item-total :
      (item : ClapItem) (path? : Option Text) (line : Text)
      → (is_panicked (match_item k (build k b q) item) ≡ false)
        × (is_panicked (match_file_result k (build k b q) path? line) ≡ false)
  unfolding match_item match_file_result
  match_item-total item path? line = (
    is_panicked-when_found (find_in_item k (build k b q) item) _ (λ f.
        let (rank, e) =
          rank_item-matched item (item.match_result_callback (merge k (build k b q) item f)) in
        ap is_panicked e),
    is_panicked-when_found (find_in_file k (build k b q) path? line) _ (λ (f, in_path).
        let (m, e) = rank_file-matched line (merge_file k (build k b q) line f in_path) in
        ap is_panicked e),
  )

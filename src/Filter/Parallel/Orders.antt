-- ===== src/Filter/Parallel/Orders.antt =====
-- The threads of crates/filter/src/parallel_worker.rs take the lock in any order: the ranks in the end
-- are those of every other order.
use vim_clap.Common.{Bool, ℕ, ◌≡◌, ◌≢◌, refl, sym, ap, ◌∙◌, List, [], ◌∷◌, map, take, some}
use vim_clap.Common.Order.{LinearOrder, insert, sort, insert_comm}
use vim_clap.Filter.Sequential.Best.{o}
use vim_clap.Filter.Sequential.Start.{ranks}
use vim_clap.Filter.Parallel.{
  Printer, Progress, BestItems, NewMatch, new_best_items, on_new_matches,
}
use vim_clap.Filter.Parallel.Best.{new_ranks, on_new_matches-best}

-- One list of matches is another one in another order.
pub data Reordered {A : Type 0} : List A → List A → Type 0 where
  done : Reordered [] []
  kept : {x : A} {xs ys : List A} → Reordered xs ys → Reordered (x ∷ xs) (x ∷ ys)
  swapped : {x y : A} {xs : List A} → Reordered (x ∷ y ∷ xs) (y ∷ x ∷ xs)
  chained : {xs ys zs : List A} → Reordered xs ys → Reordered ys zs → Reordered xs zs

map-Reordered :
    {A B : Type 0} (f : A → B) {xs ys : List A} → Reordered xs ys → Reordered (map f xs) (map f ys)
map-Reordered f done = done
map-Reordered f (kept r) = kept (map-Reordered f r)
map-Reordered f swapped = swapped
map-Reordered f (chained r s) = chained (map-Reordered f r) (map-Reordered f s)

sort-Reordered :
    {A : Type 0} {gt : A → A → Bool} (o : LinearOrder gt) {xs ys : List A}
    → Reordered xs ys
    → sort gt xs ≡ sort gt ys
unfolding sort
sort-Reordered o done = refl
sort-Reordered {gt = gt} o (kept {x = x} r) = ap (insert gt x) (sort-Reordered o r)
sort-Reordered {gt = gt} o (swapped {x = x} {y = y} {xs = xs}) = insert_comm o x y (sort gt xs)
sort-Reordered o (chained r s) = sort-Reordered o r ∙ sort-Reordered o s

module _ {I : Type 0} (printer : Printer I) where
  -- Two runs over the same ranks, in whatever orders the threads take the lock, with whatever numbers
  -- and times, end with the same ranks, where the capacity is not 0.
  pub on_new_matches-Reordered :
      (es es' : List (NewMatch I)) (now now' max_capacity interval interval' : ℕ)
      {r r' : BestItems I × List Progress}
      → max_capacity ≢ 0
      → Reordered (new_ranks es) (new_ranks es')
      → on_new_matches printer es (new_best_items now max_capacity interval) ≡ some r
      → on_new_matches printer es' (new_best_items now' max_capacity interval') ≡ some r'
      → ranks r.0.items ≡ ranks r'.0.items
  on_new_matches-Reordered es es' now now' max_capacity interval interval' {r} {r'} h p e e' =
      on_new_matches-best printer es now max_capacity interval r h e
      ∙ ap (take max_capacity) (sort-Reordered o p)
      ∙ sym (on_new_matches-best printer es' now' max_capacity interval' r' h e')

-- ===== src/Filter/Sequential/Best.antt =====
-- The queue of ranks holds the best ranks of the stream.
use mathlib.Core.Path.{subst}
use mathlib.Core.List.{append-nil, append_assoc}
use vim_clap.Common.{
  length-take, ℕ, zero, suc, ◌+◌, ◌≤◌, ◌≡◌, refl, sym, ap, ◌∙◌, false, none, some, List, [], ◌∷◌,
  ◌++◌, length, take, arith, map, ◌==◌, Bool-cases, inl, inr,
}
use vim_clap.Common.Order.{
  sort-append, insert, sort, IsSorted, LinearOrder, insert-IsSorted, take-IsSorted, length-insert,
  take-insert-take,
}
use vim_clap.Types.Rank.{Rank, rank_gt}
use vim_clap.Types.Rank.Laws.{rank_gt-LinearOrder}
use vim_clap.Types.SourceItem.{MatchedItem}
use vim_clap.Filter.Sequential.{
  items_to_show, max_idx, Queues, insert_both, insert_both_pop, init_insert, push_item, push_all,
  pop_and_insert,
}
use vim_clap.Filter.Sequential.Queue.{
  index_of, slot, find_best_rank_idx_lem, pop_and_insert-slot, insert_behind, insert-slot,
}

-- A queue as the code keeps it: full and in order.
pub record IsQueue (ranks : List Rank) : Type 0 where
  pub full : length ranks ≡ items_to_show
  pub sorted : IsSorted rank_gt ranks

abbrev pub o : LinearOrder rank_gt
o = rank_gt-LinearOrder

-- The queue with a rank inserted and the last one dropped.
abbrev pub put : Rank → List Rank → List Rank
put r ranks = take items_to_show (insert rank_gt r ranks)

pub put-IsQueue : (r : Rank) (ranks : List Rank) → IsQueue ranks → IsQueue (put r ranks)
put-IsQueue r ranks q = record {
  full = omega (
    arith,
    length-take {0} items_to_show (insert rank_gt r ranks),
    length-insert rank_gt r ranks,
  );
  sorted = take-IsSorted rank_gt items_to_show _ (insert-IsSorted o.asym r ranks q.sorted);
}

put-slot :
    (r : Rank) (ranks : List Rank) (k : ℕ)
    → IsQueue ranks
    → slot r ranks ≡ k
    → k ≤ max_idx
    → pop_and_insert k r ranks ≡ put r ranks
put-slot r ranks k q e h =
    subst (λ j. pop_and_insert j r ranks ≡ put r ranks) e
      (pop_and_insert-slot o r ranks q.sorted q.full (omega arith))

module _ {I : Type 0} (item : MatchedItem I) (q : Queues I) (h : IsQueue q.top_ranks) where
  insert_both_pop-put :
      (k : ℕ)
      → slot item.rank q.top_ranks ≡ k
      → (insert_both_pop (index_of 0 k) item.rank item q).top_ranks ≡ put item.rank q.top_ranks
  unfolding insert_both_pop
  insert_both_pop-put zero e = put-slot item.rank q.top_ranks 0 h e (omega arith)
  insert_both_pop-put (suc k) e = elim (Bool-cases (0 + k == max_idx)) [
    | inl p ↦ rw p (sym (insert_behind o item.rank q.top_ranks h.sorted h.full (ground arith)))
    | inr p ↦ rw p (put-slot item.rank q.top_ranks (0 + k + 1) h (omega arith) (inside k e p))
  ]
    where
      inside :
          (k : ℕ)
          → slot item.rank q.top_ranks ≡ suc k
          → (0 + k == max_idx) ≡ false
          → 0 + k + 1 ≤ max_idx
      inside k e p = ground (arith, (insert-slot o item.rank q.top_ranks h.sorted).1, h.full)

  -- One step of the loop keeps the best ranks.
  pub push_item-put : (push_item item q).top_ranks ≡ put item.rank q.top_ranks
  unfolding push_item
  push_item-put =
      rw (find_best_rank_idx_lem q.top_ranks item.rank)
        (insert_both_pop-put (slot item.rank q.top_ranks) refl)

  -- So does the initial loop, while the rank belongs before the last place.
  pub init_insert-put :
      slot item.rank q.top_ranks ≤ max_idx
      → (init_insert item q).top_ranks ≡ put item.rank q.top_ranks
  unfolding init_insert
  init_insert-put b =
      rw (find_best_rank_idx_lem q.top_ranks item.rank, init_insert)
        (by_slot (slot item.rank q.top_ranks) refl)
    where
      by_slot :
          (k : ℕ)
          → slot item.rank q.top_ranks ≡ k
          → (elim (index_of 0 k) as (λ _. Queues I) [
            | some idx ↦ insert_both (idx + 1) item.rank item q
            | none ↦ insert_both 0 item.rank item q
          ]).top_ranks
            ≡ put item.rank q.top_ranks
      by_slot zero e = put-slot item.rank q.top_ranks 0 h e (omega arith)
      by_slot (suc k) e = put-slot item.rank q.top_ranks (0 + k + 1) h (omega arith) (omega arith)

-- The ranks of the queue and of items read into it one by one.
pub put_all : List Rank → List Rank → List Rank
put_all [] ranks = ranks
put_all (r ∷ rs) ranks = put_all rs (put r ranks)

pub push_all-put_all :
    {I : Type 0} (items : List (MatchedItem I)) (q : Queues I)
    → IsQueue q.top_ranks
    → (push_all items q).top_ranks ≡ put_all (map (λ m. m.rank) items) q.top_ranks
unfolding push_all put_all
push_all-put_all [] q h = refl
push_all-put_all (m ∷ ms) q h =
    let e = push_item-put m q h in
    push_all-put_all ms (push_item m q) (rw e (put-IsQueue m.rank q.top_ranks h))
    ∙ ap (put_all (map (λ m. m.rank) ms)) e

-- Keeping the best forty on the way is keeping the best forty in the end.
pub put_all-take :
    (rs all_so_far : List Rank)
    → put_all rs (take items_to_show (sort rank_gt all_so_far))
      ≡ take items_to_show (sort rank_gt (all_so_far ++ rs))
unfolding put_all
put_all-take [] done = ap (λ l. take items_to_show (sort rank_gt l)) (sym (append-nil done))
put_all-take (r ∷ rs) done =
    ap (put_all rs) (
      take-insert-take rank_gt items_to_show r (sort rank_gt done)
      ∙ ap (take items_to_show) (sym (sort-append o r done)))
    ∙ put_all-take rs (done ++ r ∷ [])
    ∙ ap (λ l. take items_to_show (sort rank_gt l)) (append_assoc done (r ∷ []) rs)

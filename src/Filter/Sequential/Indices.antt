-- ===== src/Filter/Sequential/Indices.antt =====
-- The positions in `top_results` are positions of the buffer, so that reading the buffer at them, as
-- `try_notify` does, is in range.
use vim_clap.Common.{
  ℕ, zero, suc, ◌+◌, ◌-◌, ◌≤◌, ◌<◌, ◌≡◌, refl, List, [], ◌∷◌, ◌++◌, length, take, drop, set, arith,
  ltb, Bool-cases, inl, inr, All, length-append, Option, none, some, ◌==◌,
}
use vim_clap.Types.Rank.{Rank}
use vim_clap.Types.SourceItem.{MatchedItem}
use vim_clap.Filter.Sequential.{
  max_idx, items_to_show, pop_and_insert, Queues, insert_both, insert_both_pop, find_best_rank_idx,
  init_insert, push_item, push_all, init_loop, initialize_buffer, initial_queues, run_all,
}

module _ {A : Type 0} (P : A → Type 0) where
  All-append : (xs ys : List A) → All P xs → All P ys → All P (xs ++ ys)
  All-append [] ys h k = k
  All-append (x ∷ xs) ys h k = (h.0, All-append xs ys h.1 k)

  All-take : (n : ℕ) (xs : List A) → All P xs → All P (take n xs)
  All-take zero xs h = tt
  All-take (suc n) [] h = tt
  All-take (suc n) (x ∷ xs) h = (h.0, All-take n xs h.1)

  All-drop : (n : ℕ) (xs : List A) → All P xs → All P (drop n xs)
  All-drop zero xs h = h
  All-drop (suc n) [] h = tt
  All-drop (suc n) (x ∷ xs) h = All-drop n xs h.1

  All-set : (xs : List A) (i : ℕ) (v : A) → P v → All P xs → All P (set xs i v)
  All-set [] i v p h = tt
  All-set (x ∷ xs) zero v p h = (p, h.1)
  All-set (x ∷ xs) (suc i) v p h = (h.0, All-set xs i v p h.1)

  All-pop_and_insert :
      (i : ℕ) (v : A) (xs : List A) → P v → All P xs → All P (pop_and_insert i v xs)
  unfolding pop_and_insert
  All-pop_and_insert i v xs p h = elim (Bool-cases (ltb i max_idx)) [
    | inl e ↦ rw e (
        All-set _ i v p (
          All-append _ _ (All-take (i + 1) xs h) (
            All-append _ _ (All-take (max_idx - i) (drop i xs) (All-drop i xs h))
              (All-drop (i + 1 + (max_idx - i)) xs h))))
    | inr e ↦ rw e (All-set xs max_idx v p h)
  ]

All-weaken : (m n : ℕ) (xs : List ℕ) → m ≤ n → All (λ i. i < m) xs → All (λ i. i < n) xs
All-weaken m n [] h k = tt
All-weaken m n (x ∷ xs) h k = (omega arith, All-weaken m n xs h k.1)

module _ {I : Type 0} where
  abbrev pub IsIndexed : Queues I → Type 0
  IsIndexed q = All (λ i. i < length q.buffer) q.top_results

  insert_both-IsIndexed :
      (i : ℕ) (r : Rank) (m : MatchedItem I) (q : Queues I)
      → All (λ i. i < suc (length q.buffer)) q.top_results
      → IsIndexed (insert_both i r m q)
  unfolding insert_both
  insert_both-IsIndexed i r m q h =
      let len = length-append q.buffer (m ∷ []) in
      All-pop_and_insert _ i (length (q.buffer ++ m ∷ []) - 1) q.top_results (omega (arith, len))
        (All-weaken (suc (length q.buffer)) _ q.top_results (omega (arith, len)) h)

  -- A round of the loop after the queues are full.
  pub push_item-IsIndexed :
      (m : MatchedItem I) (q : Queues I) → IsIndexed q → IsIndexed (push_item m q)
  unfolding push_item
  push_item-IsIndexed m q h = by_index (find_best_rank_idx q.top_ranks m.rank)
    where
      weaker : (n : ℕ) → length q.buffer ≤ n → All (λ i. i < n) q.top_results
      weaker n l = All-weaken (length q.buffer) n q.top_results l h

      by_index : (i : Option ℕ) → IsIndexed (insert_both_pop i m.rank m q)
      by_index none = insert_both-IsIndexed 0 m.rank m q (weaker _ (omega arith))
      by_index (some i) = elim (Bool-cases (i == max_idx)) [
        | inl e ↦
            rw (e, insert_both_pop) (weaker _ (omega (arith, length-append q.buffer (m ∷ []))))
        | inr e ↦
            rw (e, insert_both_pop)
              (insert_both-IsIndexed (i + 1) m.rank m q (weaker _ (omega arith)))
      ]

  init_insert-IsIndexed :
      (m : MatchedItem I) (q : Queues I)
      → All (λ i. i < suc (length q.buffer)) q.top_results
      → IsIndexed (init_insert m q)
  unfolding init_insert
  init_insert-IsIndexed m q h = by_index (find_best_rank_idx q.top_ranks m.rank) refl
    where
      by_index :
          (i : Option ℕ) → find_best_rank_idx q.top_ranks m.rank ≡ i → IsIndexed (init_insert m q)
      by_index none e = rw (e, init_insert) (insert_both-IsIndexed 0 m.rank m q h)
      by_index (some i) e = rw (e, init_insert) (insert_both-IsIndexed (i + 1) m.rank m q h)

  init_loop_step :
      (m : MatchedItem I) (ms : List (MatchedItem I)) (total : ℕ) (q : Queues I)
      → All (λ i. i < suc (length q.buffer)) q.top_results
      → (IsIndexed (init_insert m q)
          → IsIndexed (init_loop ms (total + 1) (init_insert m q)).queues)
      → IsIndexed (init_loop (m ∷ ms) total q).queues
  unfolding init_loop
  init_loop_step m ms total q h rest = elim (Bool-cases (total + 1 == items_to_show)) [
    | inl e ↦ rw (e, init_loop) (init_insert-IsIndexed m q h)
    | inr e ↦ rw (e, init_loop) (rest (init_insert-IsIndexed m q h))
  ]

  init_loop-IsIndexed :
      (items : List (MatchedItem I)) (total : ℕ) (q : Queues I)
      → IsIndexed q
      → IsIndexed (init_loop items total q).queues
  init_loop-IsIndexed [] total q h = unfold init_loop in h
  init_loop-IsIndexed (m ∷ ms) total q h =
      init_loop_step m ms total q (All-weaken (length q.buffer) _ q.top_results (omega arith) h)
        (init_loop-IsIndexed ms (total + 1) (init_insert m q))

  push_all-IsIndexed :
      (items : List (MatchedItem I)) (q : Queues I) → IsIndexed q → IsIndexed (push_all items q)
  unfolding push_all
  push_all-IsIndexed [] q h = h
  push_all-IsIndexed (m ∷ ms) q h =
      push_all-IsIndexed ms (push_item m q) (push_item-IsIndexed m q h)

  initialize_buffer-IsIndexed :
      (m : MatchedItem I) (ms : List (MatchedItem I))
      → IsIndexed (initialize_buffer (m ∷ ms)).queues
  unfolding initialize_buffer initial_queues
  initialize_buffer-IsIndexed m ms =
      init_loop_step m ms 0 initial_queues (omega arith)
        (init_loop-IsIndexed ms 1 (init_insert m initial_queues))

  -- Once an item was read, every position in `top_results` is a position of the buffer.
  pub run_all-IsIndexed :
      (m : MatchedItem I) (ms : List (MatchedItem I)) → IsIndexed (run_all (m ∷ ms))
  unfolding run_all
  run_all-IsIndexed m ms =
      let start = initialize_buffer (m ∷ ms) in
      let h = initialize_buffer-IsIndexed m ms in
      elim (Bool-cases (initialize_buffer (m ∷ ms)).finished) [
        | inl e ↦ rw (e, run_all) h
        | inr e ↦ rw (e, run_all) (push_all-IsIndexed start.rest start.queues h)
      ]

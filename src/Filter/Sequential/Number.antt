-- ===== src/Filter/Sequential/Number.antt =====
-- With a `number` the buffer is sorted and halved whenever it is full; the best `number` results of the
-- whole stream survive.
use mathlib.Core.List.{append-nil, append_assoc, map-append}
use mathlib.Core.Path.{subst}
use vim_clap.Common.{
  ℕ, zero, suc, ◌+◌, ◌*◌, ◌/◌, ◌≤◌, ◌<◌, ◌≡◌, refl, sym, ap, ◌∙◌, true, none, some, Option, List,
  [], ◌∷◌, ◌++◌, length, take, arith, map, ◌==◌, Bool-cases, inl, inr, length-append, length-take,
}
use vim_clap.Common.Order.{
  insert, sort, sort-append, length-sort, sort-IsSorted, sort-of_IsSorted, take-IsSorted, map-sort,
  take-take, take-insert-take,
}
use vim_clap.Types.Rank.{Rank, rank_gt}
use vim_clap.Types.SourceItem.{MatchedItem, item_gt}
use vim_clap.Filter.Sequential.{
  items_to_show, Queues, Initialized, init_insert, init_loop, initialize_buffer, initial_queues,
  insert_both_pop, find_best_rank_idx, push_item, refresh, shrink, push_number,
}
use vim_clap.Filter.Sequential.Best.{o}
use vim_clap.Filter.Sequential.Start.{ranks}

pub map-take :
    {A B : Type 0} (f : A → B) (n : ℕ) (xs : List A) → map f (take n xs) ≡ take n (map f xs)
map-take f zero xs = refl
map-take f (suc n) [] = refl
map-take f (suc n) (x ∷ xs) = ap (◌∷◌ (f x)) (map-take f n xs)

length-ranks : {I : Type 0} (xs : List (MatchedItem I)) → length (ranks xs) ≡ length xs
length-ranks [] = refl
length-ranks (x ∷ xs) = ap suc (length-ranks xs)

module _ {I : Type 0} where
  -- Both loops push every item.
  pub buffer-push_item :
      (item : MatchedItem I) (q : Queues I) → (push_item item q).buffer ≡ q.buffer ++ item ∷ []
  unfolding push_item
  buffer-push_item item q = by_index (find_best_rank_idx q.top_ranks item.rank)
    where
      by_index :
          (i : Option ℕ) → (insert_both_pop i item.rank item q).buffer ≡ q.buffer ++ item ∷ []
      by_index none = refl
      by_index (some i) = ground arith

  pub buffer-init_insert :
      (item : MatchedItem I) (q : Queues I) → (init_insert item q).buffer ≡ q.buffer ++ item ∷ []
  unfolding init_insert
  buffer-init_insert item q = ground arith

  buffer-refresh :
      (idx : ℕ) (ms : List (MatchedItem I)) (q : Queues I) → (refresh idx ms q).buffer ≡ q.buffer
  unfolding refresh
  buffer-refresh idx [] q = refl
  buffer-refresh idx (m ∷ ms) q = buffer-refresh (suc idx) ms _

  -- The best `n` ranks of a buffer.
  abbrev pub best : ℕ → List (MatchedItem I) → List Rank
  best n b = take n (sort rank_gt (ranks b))

  best-take_sorted :
      (n h : ℕ) (b : List (MatchedItem I)) → n ≤ h → best n (take h (sort item_gt b)) ≡ best n b
  best-take_sorted n h b l =
      let sorted = sort rank_gt (ranks b) in
      ap (λ r. take n (sort rank_gt r))
        (map-take (λ m. m.rank) h (sort item_gt b) ∙ ap (take h) (map-sort rank_gt (λ m. m.rank) b))
      ∙ ap (take n) (
          sort-of_IsSorted rank_gt (take h sorted)
            (take-IsSorted rank_gt h sorted (sort-IsSorted o.asym (ranks b))))
      ∙ take-take n h sorted l

  best-push :
      (n : ℕ) (b c : List (MatchedItem I)) (m : MatchedItem I)
      → best n b ≡ best n c
      → best n (b ++ m ∷ []) ≡ best n (c ++ m ∷ [])
  best-push n b c m e = pushed b ∙ ap (λ l. take n (insert rank_gt m.rank l)) e ∙ sym (pushed c)
    where
      pushed :
          (b : List (MatchedItem I))
          → best n (b ++ m ∷ []) ≡ take n (insert rank_gt m.rank (best n b))
      pushed b =
          ap (λ l. take n (sort rank_gt l)) (map-append (λ m. m.rank) b (m ∷ []))
          ∙ ap (take n) (sort-append o m.rank (ranks b))
          ∙ sym (take-insert-take rank_gt n m.rank (sort rank_gt (ranks b)))

  -- What holds of the buffer between two rounds: it has room, and the best `n` of the items read so
  -- far are the best `n` in it.
  pub record Keeps (capacity n : ℕ) (seen : List (MatchedItem I)) (q : Queues I) : Type 0 where
    pub room : length q.buffer < capacity
    pub kept : best n q.buffer ≡ best n seen

  shrink-Keeps :
      (capacity n : ℕ) (seen : List (MatchedItem I)) (q : Queues I)
      → 2 * n ≤ capacity
      → 2 ≤ capacity
      → length q.buffer ≤ capacity
      → best n q.buffer ≡ best n seen
      → Keeps capacity n seen (shrink capacity q)
  unfolding shrink
  shrink-Keeps capacity n seen q h h2 l e = elim (Bool-cases (length q.buffer == capacity)) [
    | inl p ↦ rw p (record {
      room = halved (ground arith);
      kept = best-take_sorted n _ q.buffer (enough (ground arith)) ∙ e;
    })
    | inr p ↦ rw p (record { room = ground arith; kept = e })
  ]
    where
      halved :
          length q.buffer ≡ capacity
          → length (take (length (sort item_gt q.buffer) / 2) (sort item_gt q.buffer)) < capacity
      halved p = omega (
        arith,
        length-take {0} (length (sort item_gt q.buffer) / 2) (sort item_gt q.buffer),
        length-sort item_gt q.buffer,
        p,
      )

      enough : length q.buffer ≡ capacity → n ≤ length (sort item_gt q.buffer) / 2
      enough p = omega (arith, length-sort item_gt q.buffer, p)

  pub push_number-Keeps :
      (capacity n : ℕ) (items seen : List (MatchedItem I)) (total : ℕ) (q : Queues I)
      → 2 * n ≤ capacity
      → 2 ≤ capacity
      → Keeps capacity n seen q
      → Keeps capacity n (seen ++ items) (push_number capacity items total q).1
        × ((push_number capacity items total q).0 ≡ total + length items)
  unfolding push_number
  push_number-Keeps capacity n [] seen total q h h2 k =
      (subst (λ l. Keeps capacity n l q) (sym (append-nil seen)) k, omega arith)
  push_number-Keeps capacity n (m ∷ ms) seen total q h h2 k =
      let b = buffer-push_item m q in
      let pushed : best n (push_item m q).buffer ≡ best n (seen ++ m ∷ []) =
        ap (best n) b ∙ best-push n q.buffer seen m k.kept in
      let k' =
        shrink-Keeps capacity n (seen ++ m ∷ []) (push_item m q) h h2
          (rw b (omega (arith, length-append q.buffer (m ∷ []), k.room))) pushed in
      let (kept, count) =
        push_number-Keeps capacity n ms (seen ++ m ∷ []) (total + 1)
          (shrink capacity (push_item m q)) h h2 k' in
      (
        subst
            (λ l.
              Keeps capacity n l
                (push_number capacity ms (total + 1) (shrink capacity (push_item m q))).1)
            (append_assoc seen (m ∷ []) ms) kept,
        omega (arith, count),
      )

  -- The initial loop moves at most forty items into the buffer, and the rest stays in the stream.
  pub record IsSplit (items : List (MatchedItem I)) (s : Initialized I) : Type 0 where
    pub split : s.queues.buffer ++ s.rest ≡ items
    pub count : s.total ≡ length s.queues.buffer
    pub few : s.total ≤ items_to_show
    pub ended : s.finished ≡ true → s.rest ≡ []

  init_loop-IsSplit :
      (items : List (MatchedItem I)) (total : ℕ) (q : Queues I)
      → total ≡ length q.buffer
      → total < items_to_show
      → IsSplit (q.buffer ++ items) (init_loop items total q)
  unfolding init_loop
  init_loop-IsSplit [] total q t h = record {
    split = refl;
    count = t;
    few = omega arith;
    ended = λ _. refl;
  }
  init_loop-IsSplit (m ∷ ms) total q t h =
      let b = buffer-init_insert m q in
      let t' : total + 1 ≡ length (init_insert m q).buffer =
        rw b (omega (arith, length-append q.buffer (m ∷ []))) in
      let moved : (init_insert m q).buffer ++ ms ≡ q.buffer ++ m ∷ ms =
        ap (λ l. l ++ ms) b ∙ append_assoc q.buffer (m ∷ []) ms in
      step moved t' (init_loop-IsSplit ms (total + 1) (init_insert m q) t')
    where
      step :
          (init_insert m q).buffer ++ ms ≡ q.buffer ++ m ∷ ms
          → total + 1 ≡ length (init_insert m q).buffer
          → (total + 1 < items_to_show
              → IsSplit
                  ((init_insert m q).buffer ++ ms)
                  (init_loop ms (total + 1) (init_insert m q)))
          → IsSplit (q.buffer ++ m ∷ ms) (init_loop (m ∷ ms) total q)
      step moved t' ih = elim (Bool-cases (total + 1 == items_to_show)) [
        | inl p ↦
            rw (p, init_loop)
              (record { split = moved; count = t'; few = ground arith; ended = λ e. cc })
        | inr p ↦
            rw (p, init_loop)
              (subst (λ l. IsSplit l (init_loop ms (total + 1) (init_insert m q))) moved
                (ih (ground arith)))
      ]

  pub initialize_buffer-IsSplit :
      (items : List (MatchedItem I)) → IsSplit items (initialize_buffer items)
  unfolding initialize_buffer initial_queues
  initialize_buffer-IsSplit items = init_loop-IsSplit items 0 initial_queues refl (omega arith)

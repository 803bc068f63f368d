-- ===== src/Filter/Sequential/Start.antt =====
-- The initial loop fills the queues; with the loop after it the best ranks of the whole stream stand
-- in the queue.
use mathlib.Core.Path.{subst}
use mathlib.Core.List.{append-nil, append_assoc}
use vim_clap.Common.{
  ℕ, zero, suc, ◌+◌, ◌≤◌, ◌≡◌, refl, sym, ap, ◌∙◌, true, false, List, [], ◌∷◌, ◌++◌, length, take,
  arith, map, replicate, ◌==◌, Bool-cases, inl, inr, All, take_of_length-le, length-append,
}
use vim_clap.Common.Order.{IsSorted, insert, sort, sort-append, length-sort, length-insert}
use vim_clap.Types.Rank.{Rank, rank_gt, Rank_default}
use vim_clap.Types.SourceItem.{MatchedItem}
use vim_clap.Filter.Sequential.{
  max_idx, items_to_show, Queues, Initialized, init_insert, init_loop, initialize_buffer,
  initial_queues, push_all, run_all,
}
use vim_clap.Filter.Sequential.Queue.{slot}
use vim_clap.Filter.Sequential.Best.{
  o, put-IsQueue, IsQueue, put, put_all, init_insert-put, push_all-put_all, put_all-take,
}

abbrev d : Rank
d = Rank_default

-- The rank is not below `Rank::default()`, four zeros.
abbrev pub IsRanked : Rank → Type 0
IsRanked r = rank_gt Rank_default r ≡ false

abbrev pub ranks : {I : Type 0} → List (MatchedItem I) → List Rank
ranks = map (λ m. m.rank)

insert-above_default :
    (r : Rank) (n : ℕ) (xs : List Rank)
    → IsRanked r
    → insert rank_gt r (xs ++ replicate (suc n) d) ≡ insert rank_gt r xs ++ replicate (suc n) d
unfolding insert
insert-above_default r n [] h = rw h refl
insert-above_default r n (y ∷ ys) h = elim (Bool-cases (rank_gt y r)) [
  | inl g ↦ rw g (ap (◌∷◌ y) (insert-above_default r n ys h))
  | inr g ↦ rw g refl
]

slot-replicate : (r : Rank) (n : ℕ) → IsRanked r → slot r (replicate n d) ≡ 0
slot-replicate r zero h = refl
slot-replicate r (suc n) h = rw (slot-replicate r n h, h) refl

slot-le :
    (r : Rank) (n : ℕ) (xs : List Rank) → IsRanked r → slot r (xs ++ replicate n d) ≤ length xs
slot-le r n [] h = rw (slot-replicate r n h) (omega arith)
slot-le r n (x ∷ xs) h = ground (arith, slot-le r n xs h)

take-replicate :
    (n k m : ℕ) (xs : List Rank)
    → length xs + m ≡ n
    → m ≤ k
    → take n (xs ++ replicate k d) ≡ xs ++ replicate m d
take-replicate zero k zero [] e h = refl
take-replicate (suc n) k zero [] e h = absurd (omega arith)
take-replicate zero k (suc m) [] e h = absurd (omega arith)
take-replicate (suc n) zero (suc m) [] e h = absurd (omega arith)
take-replicate (suc n) (suc k) (suc m) [] e h =
    ap (◌∷◌ d) (take-replicate n k m [] (omega arith) (omega arith))
take-replicate zero k m (x ∷ xs) e h = absurd (omega arith)
take-replicate (suc n) k m (x ∷ xs) e h = ap (◌∷◌ x) (take-replicate n k m xs (omega arith) h)

take-append_of_le : (n : ℕ) (xs ys : List Rank) → n ≤ length xs → take n (xs ++ ys) ≡ take n xs
take-append_of_le zero xs ys h = refl
take-append_of_le (suc n) [] ys h = absurd (omega arith)
take-append_of_le (suc n) (x ∷ xs) ys h = ap (◌∷◌ x) (take-append_of_le n xs ys (omega arith))

replicate-IsSorted : (n : ℕ) → IsSorted rank_gt (replicate n d)
unfolding rank_gt
replicate-IsSorted zero = tt
replicate-IsSorted (suc zero) = tt
replicate-IsSorted (suc (suc n)) = (refl, replicate-IsSorted (suc n))

-- A queue that `done` was read into, with `n` places still at their default.
pub record Filling (done : List Rank) (n : ℕ) (top_ranks : List Rank) : Type 0 where
  pub held : top_ranks ≡ sort rank_gt done ++ replicate n d
  pub count : length done + n ≡ items_to_show
  pub queue : IsQueue top_ranks

pub Filling-start : Filling [] items_to_show (replicate items_to_show d)
unfolding sort
Filling-start = record {
  held = refl;
  count = omega arith;
  queue = record { full = refl; sorted = replicate-IsSorted items_to_show };
}

module _ {I : Type 0} where
  init_insert-Filling :
      (item : MatchedItem I) (q : Queues I) (done : List Rank) (n : ℕ)
      → IsRanked item.rank
      → Filling done (suc n) q.top_ranks
      → Filling (done ++ item.rank ∷ []) n (init_insert item q).top_ranks
  init_insert-Filling item q done n r f =
      let len = length-sort rank_gt done in
      let here = slot-le item.rank (suc n) (sort rank_gt done) r in
      let here' : slot item.rank q.top_ranks ≤ max_idx =
        rw f.held (omega (arith, here, len, f.count)) in
      let e = init_insert-put item q f.queue here' in
      record {
        held = e ∙ put_filled;
        count = omega (arith, length-append done (item.rank ∷ []), f.count);
        queue = rw e (put-IsQueue item.rank q.top_ranks f.queue);
      }
    where
      put_filled :
          put item.rank q.top_ranks ≡ sort rank_gt (done ++ item.rank ∷ []) ++ replicate n d
      put_filled =
          ap (put item.rank) f.held
          ∙ ap (take items_to_show) (insert-above_default item.rank n (sort rank_gt done) r)
          ∙ take-replicate items_to_show (suc n) n (insert rank_gt item.rank (sort rank_gt done))
              (omega (
                arith,
                length-insert rank_gt item.rank (sort rank_gt done),
                length-sort rank_gt done,
                f.count,
              ))
              (omega arith)
          ∙ ap (λ l. l ++ replicate n d) (sym (sort-append o item.rank done))

  -- What the initial loop leaves: the ranks it read, and the rest of the stream, which is empty if
  -- the loop came to the end of the stream and otherwise meets a full queue.
  pub record IsStarted (all_ranks : List Rank) (s : Initialized I) : Type 0 where
    pub read : List Rank
    pub free : ℕ
    pub split : all_ranks ≡ read ++ ranks s.rest
    pub filling : Filling read free s.queues.top_ranks
    pub ended : s.finished ≡ true → s.rest ≡ []
    pub filled : s.finished ≡ false → free ≡ 0

  init_loop-IsStarted :
      (items : List (MatchedItem I)) (total : ℕ) (q : Queues I) (done : List Rank) (n : ℕ)
      → All (λ m. IsRanked m.rank) items
      → total ≡ length done
      → Filling done (suc n) q.top_ranks
      → IsStarted (done ++ ranks items) (init_loop items total q)
  unfolding init_loop
  init_loop-IsStarted [] total q done n h t f = record {
    read = done;
    free = suc n;
    split = refl;
    filling = f;
    ended = λ _. refl;
    filled = λ e. cc;
  }
  init_loop-IsStarted (m ∷ ms) total q done zero h t f =
      let e : (total + 1 == items_to_show) ≡ true = ground (arith, f.count) in
      rw (e, init_loop)
        (record {
          read = done ++ m.rank ∷ [];
          free = 0;
          split = sym (append_assoc done (m.rank ∷ []) (ranks ms));
          filling = init_insert-Filling m q done 0 h.0 f;
          ended = λ c. cc;
          filled = λ _. refl;
        })
  init_loop-IsStarted (m ∷ ms) total q done (suc n) h t f =
      let e : (total + 1 == items_to_show) ≡ false = ground (arith, f.count) in
      let g = init_insert-Filling m q done (suc n) h.0 f in
      let t' : total + 1 ≡ length (done ++ m.rank ∷ []) =
        omega (arith, length-append done (m.rank ∷ [])) in
      let s =
        init_loop-IsStarted ms (total + 1) (init_insert m q) (done ++ m.rank ∷ []) n h.1 t' g in
      rw (e, init_loop)
        (subst (λ l. IsStarted l (init_loop ms (total + 1) (init_insert m q)))
          (append_assoc done (m.rank ∷ []) (ranks ms)) s)

  finished_ranks :
      (all_ranks : List Rank) (s : Initialized I)
      → IsStarted all_ranks s
      → s.finished ≡ true
      → s.queues.top_ranks
        ≡ take items_to_show (sort rank_gt all_ranks ++ replicate items_to_show d)
  finished_ranks all_ranks s i e =
      let same : all_ranks ≡ i.read =
        i.split ∙ ap (λ l. i.read ++ ranks l) (i.ended e) ∙ append-nil i.read in
      i.filling.held
      ∙ sym (
          take-replicate items_to_show items_to_show i.free (sort rank_gt i.read)
            (omega (arith, length-sort rank_gt i.read, i.filling.count))
            (omega (arith, i.filling.count)))
      ∙ ap (λ l. take items_to_show (sort rank_gt l ++ replicate items_to_show d)) (sym same)

  pushed_ranks :
      (all_ranks : List Rank) (s : Initialized I)
      → IsStarted all_ranks s
      → s.finished ≡ false
      → (push_all s.rest s.queues).top_ranks
        ≡ take items_to_show (sort rank_gt all_ranks ++ replicate items_to_show d)
  pushed_ranks all_ranks s i e =
      let many : length i.read ≡ items_to_show = omega (arith, i.filled e, i.filling.count) in
      push_all-put_all s.rest s.queues i.filling.queue
      ∙ ap (put_all (ranks s.rest)) (held many)
      ∙ put_all-take (ranks s.rest) i.read
      ∙ ap (λ l. take items_to_show (sort rank_gt l)) (sym i.split)
      ∙ sym (take-append_of_le items_to_show (sort rank_gt all_ranks) _ (enough many))
    where
      held : length i.read ≡ 40 → s.queues.top_ranks ≡ take items_to_show (sort rank_gt i.read)
      held many =
          i.filling.held
          ∙ ap (λ n. sort rank_gt i.read ++ replicate n d) (i.filled e)
          ∙ append-nil (sort rank_gt i.read)
          ∙ sym (
              take_of_length-le items_to_show (sort rank_gt i.read)
                (omega (arith, length-sort rank_gt i.read, many)))

      enough : length i.read ≡ 40 → items_to_show ≤ length (sort rank_gt all_ranks)
      enough many =
          rw (length-sort rank_gt all_ranks, i.split)
            (omega (arith, length-append i.read (ranks s.rest), many))

  -- If no rank is below the default rank, the queue holds the forty best ranks of the stream, the
  -- best first, padded with default ranks where the stream has fewer.
  pub run_all-best :
      (items : List (MatchedItem I))
      → All (λ m. IsRanked m.rank) items
      → (run_all items).top_ranks
        ≡ take items_to_show (sort rank_gt (ranks items) ++ replicate items_to_show Rank_default)
  unfolding run_all
  run_all-best items h =
      let i = init_loop-IsStarted items 0 initial_queues [] 39 h refl Filling-start in
      elim (Bool-cases (initialize_buffer items).finished) [
        | inl e ↦ rw e (finished_ranks (ranks items) _ i e)
        | inr e ↦ rw e (pushed_ranks (ranks items) _ i e)
      ]

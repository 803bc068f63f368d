-- ===== src/Filter/Parallel/Best.antt =====
-- `on_new_match` of crates/filter/src/parallel_worker.rs keeps the best ranks.
use mathlib.Core.List.{append-nil, append_assoc, map-append}
use mathlib.Core.Path.{subst}
use vim_clap.Common.{
  ◌⊎◌, Option, none, Option-cases, ◌&&◌, ◌||◌, ◌==◌, ◌%◌, ltb→lt, Bool, if◌then◌else◌, ℕ, suc, ◌≤◌,
  ◌<◌, ◌≡◌, ◌≢◌, refl, sym, ap, ◌∙◌, true, false, some, List, [], ◌∷◌, ◌++◌, length, take, map,
  last, Bool-cases, inl, inr, arith, ltb, length-take, take_of_length-le,
}
use vim_clap.Common.Options.{◌>>=◌}
use vim_clap.Printer.{DisplayLines}
use vim_clap.Common.Order.{
  insert, sort, IsSorted, sort-append, sort-of_IsSorted, take-IsSorted, insert-IsSorted,
  length-insert, take-insert-take, map-sort,
}
use vim_clap.Common.Order.Last.{
  take-insert-gt_last, without_last-IsSorted, without_last, take-insert-not_gt,
}
use vim_clap.Types.Rank.{Rank, rank_gt}
use vim_clap.Types.SourceItem.{MatchedItem, item_gt}
use vim_clap.Filter.Sequential.Best.{o}
use vim_clap.Filter.Sequential.Start.{ranks}
use vim_clap.Filter.Parallel.{
  Printer, print, is_due, is_changed, told_while_filling, told_when_full, Progress, BestItems,
  NewMatch, new_best_items, on_new_match, on_new_matches, notify_while_filling, notify_when_full,
}

-- The items are in order, and there is room for them.
pub record IsBest {I : Type 0} (b : BestItems I) : Type 0 where
  pub sorted : IsSorted rank_gt (ranks b.items)
  pub fits : length b.items ≤ b.max_capacity
  pub room : b.max_capacity ≢ 0

either_way :
    {A B : Type 0} (c : Bool) {x y : A} {z : B} (f : A → B)
    → f x ≡ z
    → f y ≡ z
    → f (if c then x else y) ≡ z
either_way true f h k = h
either_way false f h k = k

module _ {I : Type 0} where
  length-ranks : (xs : List (MatchedItem I)) → length (ranks xs) ≡ length xs
  length-ranks [] = refl
  length-ranks (x ∷ xs) = ap suc (length-ranks xs)

  -- The ranks with one more, inserted in its place.
  abbrev pub put : ℕ → MatchedItem I → List Rank → List Rank
  put n m rs = take n (insert rank_gt m.rank rs)

  ranks-sort_push :
      (xs : List (MatchedItem I)) (m : MatchedItem I)
      → IsSorted rank_gt (ranks xs)
      → ranks (sort item_gt (xs ++ m ∷ [])) ≡ insert rank_gt m.rank (ranks xs)
  ranks-sort_push xs m s =
      map-sort rank_gt (λ m. m.rank) (xs ++ m ∷ [])
      ∙ ap (sort rank_gt) (map-append (λ m. m.rank) xs (m ∷ []))
      ∙ sort-append o m.rank (ranks xs)
      ∙ ap (insert rank_gt m.rank) (sort-of_IsSorted rank_gt (ranks xs) s)

  last-ranks :
      (xs : List (MatchedItem I)) {l : MatchedItem I}
      → last xs ≡ some l
      → last (ranks xs) ≡ some l.rank
  last-ranks [] h = ground arith
  last-ranks (x ∷ []) h = ground arith
  last-ranks (x ∷ y ∷ ys) h = last-ranks (y ∷ ys) h

  last-nonempty :
      (xs : List (MatchedItem I)) → 0 < length xs → (l : MatchedItem I) × (last xs ≡ some l)
  last-nonempty [] h = absurd (omega arith)
  last-nonempty (x ∷ []) h = (x, refl)
  last-nonempty (x ∷ y ∷ ys) h = last-nonempty (y ∷ ys) (omega arith)

  ranks-without_last :
      (xs : List (MatchedItem I)) → ranks (without_last xs) ≡ without_last (ranks xs)
  ranks-without_last [] = refl
  ranks-without_last (x ∷ []) = refl
  ranks-without_last (x ∷ y ∷ ys) = ap (◌∷◌ x.rank) (ranks-without_last (y ∷ ys))

  -- What a full list becomes.
  ranks-replaced :
      (xs : List (MatchedItem I)) (m l : MatchedItem I)
      → IsSorted rank_gt (ranks xs)
      → last xs ≡ some l
      → ranks (if item_gt m l then sort item_gt (without_last xs ++ m ∷ []) else xs)
        ≡ put (length xs) m (ranks xs)
  ranks-replaced xs m l s e = elim (Bool-cases (rank_gt m.rank l.rank)) [
    | inl p ↦ rw p (
        ranks-sort_push (without_last xs) m (
          subst (IsSorted rank_gt) (sym (ranks-without_last xs))
            (without_last-IsSorted rank_gt (ranks xs) s))
        ∙ ap (insert rank_gt m.rank) (ranks-without_last xs)
        ∙ sym (take-insert-gt_last o m.rank (ranks xs) (last-ranks xs e) p)
        ∙ ap (λ n. put n m (ranks xs)) (length-ranks xs))
    | inr p ↦ rw p (
        sym (take-insert-not_gt o m.rank (ranks xs) s (last-ranks xs e) p)
        ∙ ap (λ n. put n m (ranks xs)) (length-ranks xs))
  ]

  put-fits :
      (n : ℕ) (m : MatchedItem I) (rs : List Rank)
      → length rs < n
      → put n m rs ≡ insert rank_gt m.rank rs
  put-fits n m rs h = take_of_length-le n _ (omega (arith, length-insert rank_gt m.rank rs))

  -- The ranks of the matches.
  abbrev pub new_ranks : List (NewMatch I) → List Rank
  new_ranks = map (λ e. e.item.rank)

  module _ (printer : Printer I) where
    -- Telling what is shown changes neither the items nor the capacity, and panics where the printer does.
    abbrev NotifyCases : BestItems I → Option (BestItems I × List Progress) → Type 0
    NotifyCases b o =
        ((r : BestItems I × List Progress) × (o ≡ some r)
          × (r.0.items ≡ b.items)
          × (r.0.max_capacity ≡ b.max_capacity))
        ⊎ ((o ≡ none) × (print printer b.items ≡ none))

    notify-filling :
        (e : NewMatch I) (b : BestItems I) → NotifyCases b (notify_while_filling printer e b)
    unfolding notify_while_filling
    notify-filling e b = elim (Bool-cases (is_due printer e b)) [
      | inr p ↦ rw p (inl ((b, []), refl, refl, refl))
      | inl p ↦ elim (Option-cases (print printer b.items)) [
        | inl q ↦ rw (p, q) (inr (refl, refl))
        | inr (d, q) ↦ rw (p, q) (inl (told_while_filling printer e b d, refl, refl, refl))
      ]
    ]

    abbrev items_of : BestItems I × List Progress → List (MatchedItem I)
    items_of r = r.0.items

    abbrev capacity_of : BestItems I × List Progress → ℕ
    capacity_of r = r.0.max_capacity

    told-full :
        (e : NewMatch I) (b : BestItems I) (d : DisplayLines)
        → ((told_when_full printer e b d).0.items ≡ b.items)
          × ((told_when_full printer e b d).0.max_capacity ≡ b.max_capacity)
    told-full e b d = (
      either_way (is_changed printer b d) items_of refl refl,
      either_way (is_changed printer b d) capacity_of refl refl,
    )

    notify-full : (e : NewMatch I) (b : BestItems I) → NotifyCases b (notify_when_full printer e b)
    unfolding notify_when_full
    notify-full e b =
        elim (Bool-cases
          ((e.total_matched % 16 == 0 || e.total_processed % 16 == 0) && is_due printer e b)) [
            | inr p ↦ rw p (inl ((b, []), refl, refl, refl))
            | inl p ↦ elim (Option-cases (print printer b.items)) [
              | inl q ↦ rw (p, q) (inr (refl, refl))
              | inr (d, q) ↦
                  let same = told-full e b d in
                  rw (p, q) (inl (told_when_full printer e b d, refl, same.0, same.1))
            ]
          ]

    -- A call succeeds; the best ranks stay.
    pub record Kept (e : NewMatch I) (b : BestItems I) : Type 0 where
      pub after : BestItems I
      pub calls : List Progress
      pub returned : on_new_match printer e b ≡ some (after, calls)
      pub ranked : ranks after.items ≡ put b.max_capacity e.item (ranks b.items)
      pub capacity : after.max_capacity ≡ b.max_capacity

    -- A call panics, since the printer does on the best items.
    pub record Unprinted (e : NewMatch I) (b : BestItems I) : Type 0 where
      pub shown : List (MatchedItem I)
      pub returned : on_new_match printer e b ≡ none
      pub unprinted : print printer shown ≡ none
      pub ranked : ranks shown ≡ put b.max_capacity e.item (ranks b.items)

    told-cases :
        (e : NewMatch I) (b b' : BestItems I)
        → NotifyCases b' (on_new_match printer e b)
        → ranks b'.items ≡ put b.max_capacity e.item (ranks b.items)
        → b'.max_capacity ≡ b.max_capacity
        → Kept e b ⊎ Unprinted e b
    told-cases e b b' (inl (r, ret, same, cap)) q c = inl (record {
      after = r.0;
      calls = r.1;
      returned = ret;
      ranked = ap ranks same ∙ q;
      capacity = cap ∙ c;
    })
    told-cases e b b' (inr (ret, out)) q c =
        inr (record { shown = b'.items; returned = ret; unprinted = out; ranked = q })

    pub on_new_match-cases :
        (e : NewMatch I) (b : BestItems I) → IsBest b → Kept e b ⊎ Unprinted e b
    unfolding on_new_match
    on_new_match-cases e b h = elim (Bool-cases (ltb (length b.items) b.max_capacity)) [
      | inl p ↦
          let b' = record b { items = sort item_gt (b.items ++ e.item ∷ []) } in
          told-cases e b b' (rw p (notify-filling e b'))
            (ranks-sort_push b.items e.item h.sorted
              ∙ sym (
                  put-fits b.max_capacity e.item (ranks b.items) (
                    omega (arith, length-ranks b.items, ltb→lt (length b.items) b.max_capacity p))))
            refl
      | inr p ↦
          let (l, q) = last-nonempty b.items (ground (arith, h.room, h.fits)) in
          let replaced =
            if item_gt e.item l
            then sort item_gt (without_last b.items ++ e.item ∷ [])
            else b.items in
          let b' = record b { items = replaced } in
          told-cases e b b' (rw (p, q) (notify-full e b'))
            (ranks-replaced b.items e.item l h.sorted q
              ∙ ap (λ n. put n e.item (ranks b.items)) (ground (arith, h.fits)))
            refl
    ]

    pub step-IsBest :
        (e : NewMatch I) (b : BestItems I) → IsBest b → (k : Kept e b) → IsBest k.after
    step-IsBest e b h k = record {
      sorted = subst (IsSorted rank_gt) (sym k.ranked) (
          take-IsSorted rank_gt b.max_capacity _
            (insert-IsSorted o.asym e.item.rank (ranks b.items) h.sorted));
      fits = omega (
        arith,
        k.capacity,
        length-ranks k.after.items,
        ap length k.ranked,
        length-take {0} b.max_capacity (insert rank_gt e.item.rank (ranks b.items)),
      );
      room = subst (λ n. n ≢ 0) (sym k.capacity) h.room;
    }

    pub put-pushed :
        (e : NewMatch I) (b : BestItems I) (done : List Rank)
        → ranks b.items ≡ take b.max_capacity (sort rank_gt done)
        → put b.max_capacity e.item (ranks b.items)
          ≡ take b.max_capacity (sort rank_gt (done ++ e.item.rank ∷ []))
    put-pushed e b done q =
        ap (put b.max_capacity e.item) q
        ∙ take-insert-take rank_gt b.max_capacity e.item.rank (sort rank_gt done)
        ∙ ap (take b.max_capacity) (sym (sort-append o e.item.rank done))

    pub Kept-pushed :
        (e : NewMatch I) (b : BestItems I) (done : List Rank) (k : Kept e b)
        → ranks b.items ≡ take b.max_capacity (sort rank_gt done)
        → ranks k.after.items ≡ take k.after.max_capacity (sort rank_gt (done ++ e.item.rank ∷ []))
    Kept-pushed e b done k q =
        k.ranked
        ∙ put-pushed e b done q
        ∙ ap (λ n. take n (sort rank_gt (done ++ e.item.rank ∷ []))) (sym k.capacity)

    bind-some :
        {A B : Type 0} (o : Option A) (f : A → Option B) {r : B}
        → (o >>= f) ≡ some r
        → (x : A) × (o ≡ some x) × (f x ≡ some r)
    bind-some none f h = ground arith
    bind-some (some x) f h = (x, refl, h)

    best_of_all :
        (es : List (NewMatch I)) (b : BestItems I) (done : List Rank)
        (r : BestItems I × List Progress)
        → IsBest b
        → ranks b.items ≡ take b.max_capacity (sort rank_gt done)
        → on_new_matches printer es b ≡ some r
        → ranks r.0.items ≡ take b.max_capacity (sort rank_gt (done ++ new_ranks es))
    unfolding on_new_matches
    best_of_all [] b done r h q e =
        ap (λ o. elim o [ none ↦ [] | some r ↦ ranks r.0.items ]) (sym e)
        ∙ q
        ∙ ap (λ l. take b.max_capacity (sort rank_gt l)) (sym (append-nil done))
    best_of_all (e ∷ es) b done r h q returned =
        let ((b', calls), here, rest) = bind-some (on_new_match printer e b) _ returned in
        let ((b'', more), there, same) = bind-some (on_new_matches printer es b') _ rest in
        elim (on_new_match-cases e b h) [
          | inr u ↦ absurd (ground (arith, u.returned, here))
          | inl k ↦
              let at : k.after ≡ b' =
                ap (λ o. elim o [ none ↦ b | some r ↦ r.0 ]) (sym k.returned ∙ here) in
              let later =
                best_of_all es k.after (done ++ e.item.rank ∷ []) (b'', more) (step-IsBest e b h k)
                  (Kept-pushed e b done k q) (ap (on_new_matches printer es) at ∙ there) in
              ap (λ o. elim o [ none ↦ [] | some r ↦ ranks r.0.items ]) (sym same)
              ∙ later
              ∙ ap (λ n. take n (sort rank_gt ((done ++ e.item.rank ∷ []) ++ new_ranks es)))
                  k.capacity
              ∙ ap (λ l. take b.max_capacity (sort rank_gt l))
                  (append_assoc done (e.item.rank ∷ []) (new_ranks es))
        ]

    -- With a capacity that is not 0, where no call of `on_new_match` panics, the items hold in the end the best
    -- ranks of all the matches, as many as the capacity allows, the best first, whatever the numbers told
    -- with the matches and the clock.
    pub on_new_matches-best :
        (es : List (NewMatch I)) (now max_capacity update_interval : ℕ)
        (r : BestItems I × List Progress)
        → max_capacity ≢ 0
        → on_new_matches printer es (new_best_items now max_capacity update_interval) ≡ some r
        → ranks r.0.items ≡ take max_capacity (sort rank_gt (new_ranks es))
    unfolding sort
    on_new_matches-best es now max_capacity update_interval r h e =
        best_of_all es (new_best_items now max_capacity update_interval) [] r
          (record { sorted = tt; fits = omega arith; room = h })
          (sym (take_of_length-le max_capacity [] (omega arith))) e

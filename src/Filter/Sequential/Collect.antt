-- ===== src/Filter/Sequential/Collect.antt =====
-- What the two collecting functions return.
use mathlib.Core.List.{append-nil, append_assoc}
use vim_clap.Common.{
  ℕ, ◌+◌, ◌*◌, ◌≤◌, ◌<◌, ◌≡◌, refl, sym, ap, ◌∙◌, true, List, [], ◌∷◌, ◌++◌, length, take, arith,
  max, Bool-cases, inl, inr, length-append,
}
use vim_clap.Common.Order.{sort, map-sort}
use vim_clap.Types.Rank.{rank_gt}
use vim_clap.Types.SourceItem.{MatchedItem, item_gt}
use vim_clap.Filter.Sequential.{
  items_to_show, Queues, initialize_buffer, push_item, push_all, run_all, dyn_collect_all,
  dyn_collect_number, best_of_number,
}
use vim_clap.Filter.Sequential.Start.{ranks}
use vim_clap.Filter.Sequential.Number.{
  map-take, best, Keeps, initialize_buffer-IsSplit, buffer-push_item, push_number-Keeps,
}

module _ {I : Type 0} where
  buffer-push_all :
      (items : List (MatchedItem I)) (q : Queues I) → (push_all items q).buffer ≡ q.buffer ++ items
  unfolding push_all
  buffer-push_all [] q = sym (append-nil q.buffer)
  buffer-push_all (m ∷ ms) q =
      buffer-push_all ms (push_item m q)
      ∙ ap (λ b. b ++ ms) (buffer-push_item m q)
      ∙ append_assoc q.buffer (m ∷ []) ms

  -- `dyn_collect_all` returns every item of the stream, in the order of the stream.
  dyn_collect_all-id : (items : List (MatchedItem I)) → dyn_collect_all items ≡ items
  unfolding dyn_collect_all run_all
  dyn_collect_all-id items =
      let s = initialize_buffer-IsSplit items in
      elim (Bool-cases (initialize_buffer items).finished) [
        | inl e ↦
            rw (e, dyn_collect_all, run_all)
              (sym (append-nil _)
                ∙ ap (λ r. (initialize_buffer items).queues.buffer ++ r) (sym (s.ended e))
                ∙ s.split)
        | inr e ↦
            rw (e, dyn_collect_all, run_all)
              (buffer-push_all (initialize_buffer items).rest (initialize_buffer items).queues
                ∙ s.split)
      ]

  dyn_collect_number_lem :
      (capacity number : ℕ) (items : List (MatchedItem I))
      → 2 * max items_to_show number ≤ capacity
      → (length (dyn_collect_number capacity items).1 < capacity)
        × (best number (dyn_collect_number capacity items).1 ≡ best number items)
        × ((dyn_collect_number capacity items).0 ≡ length items)
  unfolding dyn_collect_number
  dyn_collect_number_lem capacity number items h =
      let s = initialize_buffer-IsSplit items in
      let start = initialize_buffer items in
      let k : Keeps capacity number start.queues.buffer start.queues = record {
        room = omega (arith, s.few, s.count);
        kept = refl;
      } in
      let p =
        push_number-Keeps capacity number start.rest start.queues.buffer start.total start.queues
          (omega arith) (omega arith) k in
      let len : length start.queues.buffer + length start.rest ≡ length items =
        sym (length-append start.queues.buffer start.rest) ∙ ap length s.split in
      elim (Bool-cases (initialize_buffer items).finished) [
        | inl e ↦ rw e (finished e)
        | inr e ↦
            rw e (p.0.room, p.0.kept ∙ ap (best number) s.split, omega (arith, p.1, len, s.count))
      ]
    where
      finished :
          (initialize_buffer items).finished ≡ true
          → (length (initialize_buffer items).queues.buffer < capacity)
            × (best number (initialize_buffer items).queues.buffer ≡ best number items)
            × ((initialize_buffer items).total ≡ length items)
      finished e =
          let s = initialize_buffer-IsSplit items in
          let whole : (initialize_buffer items).queues.buffer ≡ items =
            sym (append-nil _)
            ∙ ap (λ r. (initialize_buffer items).queues.buffer ++ r) (sym (s.ended e))
            ∙ s.split in
          (omega (arith, s.few, s.count), ap (best number) whole, s.count ∙ ap length whole)

  -- With a buffer of at least twice forty and twice `number` places, `dyn_run` with a `number` shows the
  -- ranks of the `number` best items of the whole stream, best first, reports how many items matched,
  -- and the buffer that is left is not full.
  pub best_of_number-best :
      (capacity number : ℕ) (items : List (MatchedItem I))
      → 2 * max items_to_show number ≤ capacity
      → (ranks (best_of_number capacity number items).1 ≡ take number (sort rank_gt (ranks items)))
        × ((best_of_number capacity number items).0 ≡ length items)
        × (length (dyn_collect_number capacity items).1 < capacity)
  unfolding best_of_number
  best_of_number-best capacity number items h =
      let (room, kept, count) = dyn_collect_number_lem capacity number items h in
      let buffer = (dyn_collect_number capacity items).1 in
      (
        map-take (λ m. m.rank) number (sort item_gt buffer)
            ∙ ap (take number) (map-sort rank_gt (λ m. m.rank) buffer)
            ∙ kept,
        count,
        room,
      )

-- ===== src/Filter/Sequential.antt =====
-- crates/filter/src/sequential_worker.rs: the queues of the best results, kept while the stream of
-- matched items is read into a buffer.
pub mod Queue
pub mod Best
pub mod Start
pub mod Indices
pub mod Collect
pub mod Number
use mathlib.Core.List.{reverse}
use mathlib.Core.Option
use vim_clap.Common.{
  ℕ, zero, suc, ◌+◌, ◌-◌, ◌*◌, ◌/◌, max, Bool, true, false, Option, none, some, List, [], ◌∷◌, ◌++◌,
  ltb, ◌==◌, if◌then◌else◌, length, take, drop, set, find, replicate, map,
}
use vim_clap.Common.Order.{sort}
use vim_clap.Types.Rank.{Rank, Rank_default, rank_gt}
use vim_clap.Types.SourceItem.{MatchedItem, item_gt}

abbrev pub items_to_show : ℕ
items_to_show = 40

abbrev pub max_idx : ℕ
max_idx = 39

-- `array.copy_within(start..end, dest)`
unfoldable pub copy_within {ℓ} : {A : Type ℓ} → ℕ → ℕ → ℕ → List A → List A
copy_within start end dest xs =
    take dest xs ++ (take (end - start) (drop start xs) ++ drop (dest + (end - start)) xs)

-- `Insert::pop_and_insert`
unfoldable pub pop_and_insert {ℓ} : {A : Type ℓ} → ℕ → A → List A → List A
unfolding copy_within
pop_and_insert idx value xs =
    if ltb idx max_idx
    then set (copy_within idx max_idx (idx + 1) xs) idx value
    else set xs max_idx value

pub record Queues (I : Type 0) : Type 0 where
  pub buffer : List (MatchedItem I)
  pub top_results : List ℕ
  pub top_ranks : List Rank

-- `BufferInitializationResult`, with the items that the iterator has left.
pub record Initialized (I : Type 0) : Type 0 where
  pub finished : Bool
  pub total : ℕ
  pub queues : Queues I
  pub rest : List (MatchedItem I)

abbrev pub enumerate {ℓ} : {A : Type ℓ} → ℕ → List A → List (ℕ × A)
enumerate i [] = []
enumerate i (x ∷ xs) = (i, x) ∷ enumerate (suc i) xs

unfoldable pub find_best_rank_idx : List Rank → Rank → Option ℕ
find_best_rank_idx top_ranks rank =
    Option.map (λ p. p.0) (find (λ p. rank_gt p.1 rank) (reverse (enumerate 0 top_ranks)))

module _ {I : Type 0} where
  -- `insert_both!(index, score, item => …)`
  unfoldable pub insert_both : ℕ → Rank → MatchedItem I → Queues I → Queues I
  unfolding pop_and_insert
  insert_both index rank item q =
      let buffer = q.buffer ++ item ∷ [] in
      record {
        buffer = buffer;
        top_results = pop_and_insert index (length buffer - 1) q.top_results;
        top_ranks = pop_and_insert index rank q.top_ranks;
      }

  -- `insert_both!(pop; index, score, item => …)`
  unfoldable pub insert_both_pop : Option ℕ → Rank → MatchedItem I → Queues I → Queues I
  unfolding insert_both
  insert_both_pop none rank item q = insert_both 0 rank item q
  insert_both_pop (some idx) rank item q =
      if idx == max_idx
      then record q { buffer = q.buffer ++ item ∷ [] }
      else insert_both (idx + 1) rank item q

  unfoldable pub initial_queues : Queues I
  initial_queues = record {
    buffer = [];
    top_results = replicate items_to_show 0;
    top_ranks = replicate items_to_show Rank_default;
  }

  -- The closure of `initialize_buffer`: `find_best_rank_idx(…)`, plus one if it is there.
  unfoldable pub init_insert : MatchedItem I → Queues I → Queues I
  unfolding insert_both find_best_rank_idx
  init_insert item q = elim (find_best_rank_idx q.top_ranks item.rank) [
    | some idx ↦ insert_both (idx + 1) item.rank item q
    | none ↦ insert_both 0 item.rank item q
  ]

  unfoldable pub init_loop : List (MatchedItem I) → ℕ → Queues I → Initialized I
  unfolding init_insert
  init_loop [] total q = record { finished = true; total = total; queues = q; rest = [] }
  init_loop (item ∷ items) total q =
      let q' = init_insert item q in
      elim (total + 1 == items_to_show) [
        | true ↦ record { finished = false; total = total + 1; queues = q'; rest = items }
        | false ↦ init_loop items (total + 1) q'
      ]

  unfoldable pub initialize_buffer : List (MatchedItem I) → Initialized I
  unfolding init_loop initial_queues
  initialize_buffer items = init_loop items 0 initial_queues

  -- The body of the loop after the queues are full.
  unfoldable pub push_item : MatchedItem I → Queues I → Queues I
  unfolding insert_both_pop find_best_rank_idx
  push_item item q = insert_both_pop (find_best_rank_idx q.top_ranks item.rank) item.rank item q

  unfoldable pub push_all : List (MatchedItem I) → Queues I → Queues I
  unfolding push_item
  push_all [] q = q
  push_all (item ∷ items) q = push_all items (push_item item q)

  -- The queues and the buffer when `dyn_collect_all` returns.
  unfoldable pub run_all : List (MatchedItem I) → Queues I
  unfolding initialize_buffer push_all
  run_all items =
      let start = initialize_buffer items in
      if start.finished then start.queues else push_all start.rest start.queues

  unfoldable pub dyn_collect_all : List (MatchedItem I) → List (MatchedItem I)
  unfolding run_all
  dyn_collect_all items = (run_all items).buffer

  -- The loop that rewrites the queues after the buffer was sorted.
  unfoldable pub refresh : ℕ → List (MatchedItem I) → Queues I → Queues I
  refresh idx [] q = q
  refresh idx (m ∷ ms) q =
      refresh (suc idx) ms (record q {
        top_ranks = set q.top_ranks idx m.rank;
        top_results = set q.top_results idx idx;
      })

  -- The end of the loop's body: a full buffer is sorted and halved.
  unfoldable pub shrink : ℕ → Queues I → Queues I
  unfolding refresh sort
  shrink capacity q =
      let buffer = sort item_gt q.buffer in
      let q' = refresh 0 (take items_to_show buffer) q in
      if length q.buffer == capacity
      then record q' { buffer = take (length buffer / 2) buffer }
      else q

  unfoldable pub push_number : ℕ → List (MatchedItem I) → ℕ → Queues I → ℕ × Queues I
  unfolding push_item shrink
  push_number capacity [] total q = (total, q)
  push_number capacity (item ∷ items) total q =
      push_number capacity items (total + 1) (shrink capacity (push_item item q))

  -- `capacity` is the capacity of `Vec::with_capacity(2 * ITEMS_TO_SHOW.max(number))`, which the
  -- allocator may choose larger.
  unfoldable pub dyn_collect_number : ℕ → List (MatchedItem I) → ℕ × List (MatchedItem I)
  unfolding initialize_buffer push_number
  dyn_collect_number capacity items =
      let start = initialize_buffer items in
      let (total, q) = push_number capacity start.rest start.total start.queues in
      if start.finished then (start.total, start.queues.buffer) else (total, q.buffer)

  -- `dyn_run` with a `number`: what is printed, and the number of matches.
  unfoldable pub best_of_number : ℕ → ℕ → List (MatchedItem I) → ℕ × List (MatchedItem I)
  unfolding dyn_collect_number sort
  best_of_number capacity number items =
      let (total, buffer) = dyn_collect_number capacity items in
      (total, take number (sort item_gt buffer))

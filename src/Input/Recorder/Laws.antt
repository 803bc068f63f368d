-- ===== src/Input/Recorder/Laws.antt =====
-- The bound on the inputs, and what the two moves give.
use native.Mathlib.Nat.{mod-add-mod}
use vim_clap.Common.{
  sym, if◌then◌else◌, ◌==◌, ◌∙◌, ap, ◌⊎◌, ◌%◌, ◌-◌, ◌+◌, none, ℕ, zero, suc, ◌≤◌, ◌<◌, ◌≡◌, refl,
  some, List, [], ◌∷◌, ◌++◌, length, position, get_elem?, arith, Option-cases, inl, inr,
  length-append, length-remove_at, position-lt-length, length-drop,
}
use vim_clap.Text.{Text, text_eq, trim}
use vim_clap.Input.Recorder.{
  InputRecorder, max_inputs, prune_last, push_input, try_record, move_to_next, move_to_prev, Step,
  recorded, moved_next, moved_prev, Reach, here, then_step,
}

abbrev pub IsBounded : InputRecorder → Type 0
IsBounded r = length r.inputs ≤ max_inputs

length-prune_last :
    (t : Text) (r : InputRecorder) → length (prune_last t r).inputs ≤ length r.inputs
unfolding prune_last
length-prune_last t r = elim (Option-cases (position (λ i. text_eq i r.last_input) r.inputs)) [
  | inl e ↦ ground (arith, e)
  | inr (pos, e) ↦
      let inside = position-lt-length (λ i. text_eq i r.last_input) r.inputs e in
      ground (arith, e, length-remove_at r.inputs pos inside)
]

length-push_input :
    (t : Text) (r : InputRecorder) → length r.inputs ≤ max_inputs → IsBounded (push_input t r)
unfolding push_input
length-push_input t r h =
    ground (arith, length-append r.inputs (t ∷ []), length-drop {0} 1 (r.inputs ++ t ∷ []))

try_record-IsBounded : (t : Text) (r : InputRecorder) → IsBounded r → IsBounded (try_record t r)
unfolding try_record
try_record-IsBounded t r h =
    let pruned = length-prune_last (trim t) r in
    let pushed = length-push_input t (prune_last (trim t) r) (omega (arith, pruned)) in
    ground (arith, pushed)

Step-IsBounded : {r s : InputRecorder} → Step r s → IsBounded r → IsBounded s
Step-IsBounded (recorded r t) h = try_record-IsBounded t r h
Step-IsBounded (moved_next r) h = unfold move_to_next in ground arith
Step-IsBounded (moved_prev r) h = unfold move_to_prev in ground arith

-- Whatever is recorded and however the session moves, a recorder that starts with at most twenty inputs
-- never holds more.
pub Reach-IsBounded : {r s : InputRecorder} → IsBounded r → Reach r s → IsBounded s
Reach-IsBounded h here = h
Reach-IsBounded h (then_step p st) = Step-IsBounded st (Reach-IsBounded h p)

get_elem?-total :
    {A : Type 0} (xs : List A) (i : ℕ) → i < length xs → (a : A) × (get_elem? xs i ≡ some a)
get_elem?-total [] i h = absurd (omega arith)
get_elem?-total (x ∷ xs) zero h = (x, refl)
get_elem?-total (x ∷ xs) (suc i) h = get_elem?-total xs i (omega arith)

get_elem?-none : {A : Type 0} (xs : List A) (i : ℕ) → length xs ≤ i → get_elem? xs i ≡ none
get_elem?-none [] i h = refl
get_elem?-none (x ∷ xs) zero h = absurd (omega arith)
get_elem?-none (x ∷ xs) (suc i) h = get_elem?-none xs i (omega arith)

next-cases :
    (i n : ℕ) → i < n → ((i + 1 < n) × ((i + 1) % n ≡ i + 1)) ⊎ ((i + 1 ≡ n) × ((i + 1) % n ≡ 0))
next-cases i n h = grind arith

move_to_next-index :
    (r : InputRecorder)
    → 0 < length r.inputs
    → (move_to_next r).0.current_index ≡ (r.current_index + 1) % length r.inputs
unfolding move_to_next
move_to_next-index r h = ground arith

-- Where there is an input, `move_to_next` gives one, the one that its new index names, and leaves the
-- index in range, whatever it was before.
move_to_next-some :
    (r : InputRecorder)
    → 0 < length r.inputs
    → (t : Text) × ((move_to_next r).1 ≡ some t)
      × (get_elem? r.inputs (move_to_next r).0.current_index ≡ some t)
      × ((move_to_next r).0.current_index < length r.inputs)
unfolding move_to_next
move_to_next-some r h =
    let next = (r.current_index + 1) % length r.inputs in
    let inside : next < length r.inputs = grind arith in
    let (t, e) = get_elem?-total r.inputs next inside in
    (t, ground (arith, e), ground (arith, e), ground (arith, inside))

abbrev before : ℕ → ℕ → ℕ
before i n = if i == 0 then n - 1 else i - 1

next_state :
    (r : InputRecorder)
    → 0 < length r.inputs
    → (move_to_next r).0 ≡ record r { current_index = (r.current_index + 1) % length r.inputs }
unfolding move_to_next
next_state r h = ground arith

prev_state :
    (r : InputRecorder)
    → 0 < length r.inputs
    → (move_to_prev r).0 ≡ record r { current_index = before r.current_index (length r.inputs) }
unfolding move_to_prev
prev_state r h = ground arith

at_index : (r : InputRecorder) (i : ℕ) → i ≡ r.current_index → record r { current_index = i } ≡ r
at_index r i e = λ j. record r { current_index = e j }

before_next : (i n : ℕ) → i < n → before ((i + 1) % n) n ≡ i
before_next i n h = ground (arith, next-cases i n h)

next_before : (i n : ℕ) → i < n → (before i n + 1) % n ≡ i
next_before i n h = ground (arith, next-cases (i - 1) n, next-cases (n - 1) n)

next_text :
    (r : InputRecorder)
    → 0 < length r.inputs
    → (move_to_next r).1 ≡ get_elem? r.inputs ((r.current_index + 1) % length r.inputs)
unfolding move_to_next
next_text r h = ground arith

prev_text :
    (r : InputRecorder)
    → 0 < length r.inputs
    → (move_to_prev r).1 ≡ get_elem? r.inputs (before r.current_index (length r.inputs))
unfolding move_to_prev
prev_text r h = ground arith

-- Some moves forward.
unfoldable pub walk : ℕ → InputRecorder → InputRecorder
walk zero r = r
walk (suc k) r = (move_to_next (walk k r)).0

walk-index :
    (k : ℕ) (r : InputRecorder)
    → r.current_index < length r.inputs
    → walk k r ≡ record r { current_index = (r.current_index + k) % length r.inputs }
unfolding walk
walk-index zero r h = sym (at_index r _ (grind arith))
walk-index (suc k) r h =
    ap (λ s. (move_to_next s).0) (walk-index k r h)
    ∙ next_state (record r { current_index = (r.current_index + k) % length r.inputs })
        (omega arith)
    ∙ ap (λ i. record r { current_index = i })
        (mod-add-mod (r.current_index + k) (length r.inputs) 1
          ∙ ap (λ i. i % length r.inputs) (omega arith))

-- From an index in range, `move_to_prev` takes back `move_to_next`, which gives back the input at the index, and
-- `move_to_next` takes back `move_to_prev`. The walk forward is a cycle through all inputs: the move after `k`
-- others gives the input that stands `k + 1` places behind the index, counted from the first one again
-- after the last one.
pub move_to_prev-next :
    (r : InputRecorder)
    → r.current_index < length r.inputs
    → ((move_to_prev (move_to_next r).0).0 ≡ r)
      × ((move_to_prev (move_to_next r).0).1 ≡ get_elem? r.inputs r.current_index)
      × ((move_to_next (move_to_prev r).0).0 ≡ r)
      × ((k : ℕ)
          → ((move_to_next (walk k r)).1
              ≡ get_elem? r.inputs ((r.current_index + suc k) % length r.inputs))
            × ((walk k r).current_index ≡ (r.current_index + k) % length r.inputs))
move_to_prev-next r h =
    let n = length r.inputs in
    let forward = record r { current_index = (r.current_index + 1) % n } in
    (
      ap (λ s. (move_to_prev s).0) (next_state r (omega arith))
          ∙ prev_state forward (omega arith)
          ∙ at_index r _ (before_next r.current_index n h),
      ap (λ s. (move_to_prev s).1) (next_state r (omega arith))
          ∙ prev_text forward (omega arith)
          ∙ ap (get_elem? r.inputs) (before_next r.current_index n h),
      ap (λ s. (move_to_next s).0) (prev_state r (omega arith))
          ∙ next_state (record r { current_index = before r.current_index n }) (omega arith)
          ∙ at_index r _ (next_before r.current_index n h),
      λ k. (
        ap (λ s. (move_to_next s).1) (walk-index k r h)
            ∙ next_text (record r { current_index = (r.current_index + k) % n }) (omega arith)
            ∙ ap (get_elem? r.inputs)
                (mod-add-mod (r.current_index + k) n 1 ∙ ap (λ i. i % n) (omega arith)),
        ap (λ s. s.current_index) (walk-index k r h),
      ),
    )

-- Where the index has run past the inputs, `move_to_prev` gives nothing although there are inputs.
pub move_to_prev-none :
    (r : InputRecorder)
    → 0 < length r.inputs
    → length r.inputs < r.current_index
    → (move_to_prev r).1 ≡ none
unfolding move_to_prev
move_to_prev-none r p h =
    let out = get_elem?-none r.inputs (r.current_index - 1) (omega arith) in ground (arith, out)

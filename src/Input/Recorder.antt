-- ===== src/Input/Recorder.antt =====
-- `InputRecorder`: the inputs that a provider was given, and the walk through them.
pub mod Laws
use vim_clap.Common.{
  ℕ, zero, suc, ◌+◌, ◌-◌, ◌%◌, Bool, true, false, ◌&&◌, ◌||◌, Option, none, some, List, [], ◌∷◌,
  ◌++◌, ltb, leb, ◌==◌, if◌then◌else◌, length, is_empty, any, position, remove_at, get_elem?, drop,
}
use vim_clap.Text.{Text, text_eq, trim, starts_with}

abbrev pub max_inputs : ℕ
max_inputs = 20

pub record InputRecorder : Type 0 where
  pub inputs : List Text
  pub last_input : Text
  pub current_index : ℕ

unfoldable pub new_recorder : List Text → InputRecorder
new_recorder inputs = record { inputs = inputs; last_input = []; current_index = 0 }

unfoldable pub into_inputs : InputRecorder → List Text
into_inputs r = r.inputs

-- The input that the new one extends is taken out.
unfoldable pub prune_last : Text → InputRecorder → InputRecorder
unfolding starts_with
prune_last trimmed r =
    if starts_with trimmed r.last_input
    then (elim (position (λ i. text_eq i r.last_input) r.inputs) [
      | none ↦ r
      | some pos ↦ record r {
        inputs = remove_at r.inputs pos;
        current_index = if leb pos r.current_index then r.current_index - 1 else r.current_index;
      }
    ])
    else r

-- The end of `try_record`: the input is pushed, and the oldest one dropped if there are too many.
unfoldable pub push_input : Text → InputRecorder → InputRecorder
push_input new r =
    let inputs = r.inputs ++ new ∷ [] in
    record {
      inputs = if ltb max_inputs (length inputs) then drop 1 inputs else inputs;
      last_input = new;
      current_index = if is_empty r.inputs then r.current_index else r.current_index + 1;
    }

unfoldable pub try_record : Text → InputRecorder → InputRecorder
unfolding prune_last push_input trim starts_with
try_record new r =
    let trimmed = trim new in
    if is_empty trimmed || any (λ s. text_eq s trimmed) r.inputs
    then r
    else if any (λ old. starts_with old trimmed) r.inputs
    then r
    else push_input new (prune_last trimmed r)

unfoldable pub move_to_next : InputRecorder → InputRecorder × Option Text
move_to_next r =
    let next = (r.current_index + 1) % length r.inputs in
    if is_empty r.inputs
    then (r, none)
    else (record r { current_index = next }, get_elem? r.inputs next)

-- `checked_sub(1)` is none at 0.
unfoldable pub move_to_prev : InputRecorder → InputRecorder × Option Text
move_to_prev r =
    let prev = if r.current_index == 0 then length r.inputs - 1 else r.current_index - 1 in
    if is_empty r.inputs
    then (r, none)
    else (record r { current_index = prev }, get_elem? r.inputs prev)

-- The calls that a session makes of its recorder.
pub data Step : InputRecorder → InputRecorder → Type 0 where
  recorded : (r : InputRecorder) (new : Text) → Step r (try_record new r)
  moved_next : (r : InputRecorder) → Step r (move_to_next r).0
  moved_prev : (r : InputRecorder) → Step r (move_to_prev r).0

pub data Reach (r : InputRecorder) : InputRecorder → Type 0 where
  here : Reach r r
  then_step : {s t : InputRecorder} → Reach r s → Step s t → Reach r t

-- ===== src/Input/History.antt =====
-- `InputHistory`: the inputs of every provider. `HashMap` is an association list; the order in which
-- `all_inputs` lists the inputs is that of a hash set, here the order of first occurrence.
use vim_clap.Common.{ℕ, ◌==◌, ◌≡◌, List, [], ◌∷◌, ◌++◌, if◌then◌else◌, any, arith}
use vim_clap.Text.{Text, text_eq}

-- A provider is named by its id.
abbrev pub InputHistory : Type 0
InputHistory = List (ℕ × List Text)

unfoldable pub inputs : ℕ → InputHistory → List Text
inputs id [] = []
inputs id ((j, l) ∷ h) = if j == id then l else inputs id h

unfoldable pub update_inputs : ℕ → List Text → InputHistory → InputHistory
update_inputs id l [] = (id, l) ∷ []
update_inputs id l ((j, k) ∷ h) = if j == id then (id, l) ∷ h else (j, k) ∷ update_inputs id l h

abbrev pub values : InputHistory → List Text
values [] = []
values ((j, l) ∷ h) = l ++ values h

-- The elements that are collected into the set one by one.
unfoldable pub collect : List Text → List Text → List Text
collect set [] = set
collect set (t ∷ ts) = collect (if any (λ s. text_eq s t) set then set else set ++ t ∷ []) ts

unfoldable pub all_inputs : InputHistory → List Text
unfolding collect
all_inputs h = collect [] (values h)

-- After an update a provider has the new inputs, and every other one what it had.
inputs-update_inputs :
    (id j : ℕ) (l : List Text) (h : InputHistory)
    → inputs j (update_inputs id l h) ≡ (if id == j then l else inputs j h)
unfolding inputs update_inputs
inputs-update_inputs id j l [] = ground arith
inputs-update_inputs id j l ((k, m) ∷ h) = ground (arith, inputs-update_inputs id j l h)

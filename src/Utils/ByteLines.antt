-- ===== src/Utils/ByteLines.antt =====
-- crates/utils/src/bytelines.rs: the lines of a byte slice. `memchr` and `memrchr` split at the first and
-- the last newline; UTF-8 is that of the standard library.
pub mod Laws
use vim_clap.Text.{Text}
use vim_clap.Common.{
  ℕ, zero, suc, ◌==◌, Bool, true, false, Option, none, some, List, [], ◌∷◌, ◌++◌, if◌then◌else◌,
  length,
}

abbrev pub nl : ℕ
nl = 10

-- `ByteLines` is the text that is left.
abbrev pub Bytes : Type 0
Bytes = List ℕ

-- A byte more in front.
abbrev pub in_front : ℕ → Option (Bytes × Bytes) → Option (Bytes × Bytes)
in_front c none = none
in_front c (some (a, b)) = some (c ∷ a, b)

-- The bytes before and after the first newline.
unfoldable pub split_first : Bytes → Option (Bytes × Bytes)
split_first [] = none
split_first (c ∷ cs) =
    let later = in_front c (split_first cs) in if c == nl then some ([], cs) else later

-- The bytes before and after the last newline.
unfoldable pub split_last : Bytes → Option (Bytes × Bytes)
split_last [] = none
split_last (c ∷ cs) = elim (split_last cs) [
  | some (a, b) ↦ some (c ∷ a, b)
  | none ↦ if c == nl then some ([], cs) else none
]

-- The bytes of the line that `next` and `next_back` give, and the text that is left.
unfoldable pub cut_next : Bytes → Option (Bytes × Bytes)
unfolding split_first
cut_next [] = none
cut_next (c ∷ cs) = elim (split_first (c ∷ cs)) [
  | some (a, b) ↦ some (a, b)
  | none ↦ some (c ∷ cs, [])
]

unfoldable pub cut_next_back : Bytes → Option (Bytes × Bytes)
unfolding split_last
cut_next_back [] = none
cut_next_back (c ∷ cs) = elim (split_last (c ∷ cs)) [
  | some (a, b) ↦ some (a, b)
  | none ↦ some (c ∷ cs, [])
]

-- `str::from_utf8` and `String::from_utf8_lossy`.
pub record Utf8 : Type 0 where
  pub from_utf8 : Bytes → Option Text
  pub from_utf8_lossy : Bytes → Text

module _ (u : Utf8) where
  abbrev pub decode : Bytes → Text
  decode line = elim (u.from_utf8 line) [ some s ↦ s | none ↦ u.from_utf8_lossy line ]

  abbrev pub decoded : Option (Bytes × Bytes) → Option (Text × Bytes)
  decoded none = none
  decoded (some (line, rest)) = some (decode line, rest)

  unfoldable pub next : Bytes → Option (Text × Bytes)
  unfolding cut_next
  next text = decoded (cut_next text)

  unfoldable pub next_back : Bytes → Option (Text × Bytes)
  unfolding cut_next_back
  next_back text = decoded (cut_next_back text)

  -- The lines that the iterator gives, on fuel.
  unfoldable pub collect_lines : ℕ → Bytes → List Text
  unfolding next
  collect_lines zero text = []
  collect_lines (suc fuel) text = elim (next text) [
    | none ↦ []
    | some (line, rest) ↦ line ∷ collect_lines fuel rest
  ]

  unfoldable pub lines : Bytes → List Text
  unfolding collect_lines
  lines text = collect_lines (length text) text

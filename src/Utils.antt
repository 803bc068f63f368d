-- ===== src/Utils.antt =====
-- crates/utils/src/lib.rs: positions of chars and bytes in a line, the width of a number.
pub mod Positions
pub mod Width
pub mod ByteLines
use mathlib.Core.Option
use vim_clap.Common.{
  ℕ, zero, suc, ◌+◌, ◌/◌, ◌==◌, Bool, true, false, Option, none, some, List, [], ◌∷◌, if◌then◌else◌,
  any,
}
use vim_clap.Text.{Text, len_utf8}

-- `char_indices().enumerate()`: the char's position, its byte position, the char.
unfoldable pub char_indices : ℕ → ℕ → Text → List (ℕ × ℕ × ℕ)
unfolding len_utf8
char_indices char_idx byte_idx [] = []
char_indices char_idx byte_idx (c ∷ cs) =
    (char_idx, byte_idx, c) ∷ char_indices (suc char_idx) (byte_idx + len_utf8 c) cs

abbrev pub mem : ℕ → List ℕ → Bool
mem n ns = any (λ m. m == n) ns

-- The `filter_map` of both directions.
unfoldable pub chosen_bytes : List ℕ → List (ℕ × ℕ × ℕ) → List ℕ
chosen_bytes char_indices [] = []
chosen_bytes char_indices ((char_idx, byte_idx, c) ∷ rest) =
    let others = chosen_bytes char_indices rest in
    if mem char_idx char_indices then byte_idx ∷ others else others

unfoldable pub char_indices_to_byte_indices : Text → List ℕ → List ℕ
unfolding char_indices chosen_bytes
char_indices_to_byte_indices s indices = chosen_bytes indices (char_indices 0 0 s)

-- The `find_map` of the position, and of the char.
unfoldable pub find_char_index : ℕ → List (ℕ × ℕ × ℕ) → Option ℕ
find_char_index byte_idx [] = none
find_char_index byte_idx ((c_idx, b_idx, c) ∷ rest) =
    if byte_idx == b_idx then some c_idx else find_char_index byte_idx rest

unfoldable pub char_index_for : Text → ℕ → Option ℕ
unfolding char_indices find_char_index
char_index_for line byte_idx = find_char_index byte_idx (char_indices 0 0 line)

unfoldable pub find_char : ℕ → List (ℕ × ℕ × ℕ) → Option ℕ
find_char byte_idx [] = none
find_char byte_idx ((c_idx, b_idx, c) ∷ rest) =
    if byte_idx == b_idx then some c else find_char byte_idx rest

unfoldable pub char_at : Text → ℕ → Option ℕ
unfolding char_indices find_char
char_at line byte_idx = find_char byte_idx (char_indices 0 0 line)

-- The `while` loop on fuel.
unfoldable pub count_digits : ℕ → ℕ → ℕ → ℕ
count_digits zero n len = len
count_digits (suc fuel) n len =
    let rest = count_digits fuel (n / 10) (len + 1) in if n == 0 then len else rest

unfoldable pub display_width : ℕ → ℕ
unfolding count_digits
display_width n = if n == 0 then 1 else count_digits n n 0

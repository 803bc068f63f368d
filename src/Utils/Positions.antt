-- ===== src/Utils/Positions.antt =====
-- Char positions to byte positions and back.
use vim_clap.Common.{
  ℕ, zero, suc, ◌+◌, ◌≤◌, ◌<◌, ◌≡◌, refl, ◌∙◌, some, List, [], ◌∷◌, map, filter, length, All, arith,
}
use vim_clap.Text.{Text, len_utf8}
use vim_clap.Utils.{
  char_indices, chosen_bytes, char_indices_to_byte_indices, find_char_index, char_index_for, mem,
}

-- The `n` numbers from `c` on.
abbrev pub range : ℕ → ℕ → List ℕ
range c zero = []
range c (suc n) = c ∷ range (suc c) n

len_utf8_pos : (c : ℕ) → 0 < len_utf8 c
unfolding len_utf8
len_utf8_pos c = ground arith

chosen_bytes_bound :
    (ix : List ℕ) (c b lo : ℕ) (s : Text)
    → lo ≤ b
    → All (λ y. lo ≤ y) (chosen_bytes ix (char_indices c b s))
unfolding chosen_bytes char_indices
chosen_bytes_bound ix c b lo [] h = tt
chosen_bytes_bound ix c b lo (x ∷ xs) h =
    ground (arith, chosen_bytes_bound ix (suc c) (b + len_utf8 x) lo xs)

-- A search for a later byte passes the head by.
find_char_index-skip :
    (c b x : ℕ) (l : List (ℕ × ℕ × ℕ)) (ys : List ℕ)
    → All (λ y. suc b ≤ y) ys
    → map (λ y. find_char_index y ((c, b, x) ∷ l)) ys ≡ map (λ y. find_char_index y l) ys
unfolding find_char_index
find_char_index-skip c b x l [] h = refl
find_char_index-skip c b x l (y ∷ ys) h = ground (arith, find_char_index-skip c b x l ys)

round_trip :
    (ix : List ℕ) (c b : ℕ) (s : Text)
    → map (λ y. find_char_index y (char_indices c b s)) (chosen_bytes ix (char_indices c b s))
      ≡ map some (filter (λ i. mem i ix) (range c (length s)))
unfolding chosen_bytes char_indices find_char_index
round_trip ix c b [] = refl
round_trip ix c b (x ∷ xs) =
    let tail = char_indices (suc c) (b + len_utf8 x) xs in
    let skip =
      find_char_index-skip c b x tail (chosen_bytes ix tail) (
        chosen_bytes_bound ix (suc c) (b + len_utf8 x) (suc b) xs
          (omega (arith, len_utf8_pos x))) in
    ground (arith, skip ∙ round_trip ix (suc c) (b + len_utf8 x) xs)

-- Looking up the byte positions that `char_indices_to_byte_indices` gives leads back to the char
-- positions it was given, those inside the line, in order and each once.
pub char_index_for-char_indices :
    (s : Text) (indices : List ℕ)
    → map (char_index_for s) (char_indices_to_byte_indices s indices)
      ≡ map some (filter (λ i. mem i indices) (range 0 (length s)))
unfolding char_index_for char_indices_to_byte_indices
char_index_for-char_indices s indices = round_trip indices 0 0 s

-- ===== src/Trimmer.antt =====
-- crates/printer/src/trimmer/v1.rs: a text that is wider than its window, cut at one end or at both,
-- with its highlights. The width of a char is that of the crate unicode-width, a parameter.
pub mod Left
use mathlib.Core.Option
use vim_clap.Common.{
  ℕ, zero, suc, ◌+◌, ◌-◌, ◌%◌, ◌^◌, ◌==◌, Bool, true, false, ◌&&◌, ◌||◌, Option, none, some, List,
  [], ◌∷◌, ◌++◌, map, if◌then◌else◌, ltb, leb, length, drop, last, filter, get_elem?, is_empty,
}
use vim_clap.Common.Options.{◌>>=◌}
use vim_clap.Text.{Text, slice_to, slice_from, len_utf8, byte_len}

-- `UnicodeDots`
abbrev pub dots : ℕ
dots = 0x2026

abbrev pub dots_len : ℕ
dots_len = 1

-- `a + b` and `a - b` on `usize` of 64 bits, wrapping around, as in a build that checks no overflow.
unfoldable pub add_usize : ℕ → ℕ → ℕ
add_usize a b = (a + b) % 2 ^ 64

unfoldable pub sub_usize : ℕ → ℕ → ℕ
sub_usize a b = if leb b a then a - b else 2 ^ 64 + a - b

pub data TrimInfo : Type 0 where
  left both : ℕ → TrimInfo
  right : TrimInfo

unfoldable pub left_trim_start : TrimInfo → Option ℕ
left_trim_start (left start) = some start
left_trim_start (both start) = some start
left_trim_start right = none

pub record TrimmedText : Type 0 where
  pub trimmed_text : Text
  pub indices : List ℕ
  pub trim_info : TrimInfo

-- `panicked` is an index out of bounds.
pub data Trim : Type 0 where
  untrimmed : Trim
  trimmed : TrimmedText → Trim
  panicked : Trim

-- Dropping the first chars of the text, and those dropped.
pub record Cut : Type 0 where
  pub rest : Text
  pub dropped : ℕ

-- `text.is_char_boundary(n)`
unfoldable pub is_char_boundary : Text → ℕ → Bool
unfolding len_utf8
is_char_boundary t zero = true
is_char_boundary [] (suc n) = false
is_char_boundary (c ∷ cs) (suc n) =
    let rest = is_char_boundary cs (suc n - len_utf8 c) in
    if leb (len_utf8 c) (suc n) then rest else false

-- The `while` loop, which ends at 0; the number is the fuel.
unfoldable pub boundary_before : Text → ℕ → ℕ
unfolding is_char_boundary
boundary_before t zero = 0
boundary_before t (suc n) =
    let rest = boundary_before t n in if is_char_boundary t (suc n) then suc n else rest

-- `text.char_indices().nth(n)`, the byte position.
unfoldable pub byte_of_char : Text → ℕ → Option ℕ
unfolding len_utf8
byte_of_char [] n = none
byte_of_char (c ∷ cs) zero = some 0
byte_of_char (c ∷ cs) (suc n) = Option.map (λ i. len_utf8 c + i) (byte_of_char cs n)

-- The highlights of a text that is cut on the left.
unfoldable pub left_indices : ℕ → List ℕ → List ℕ
left_indices trimmed_len [] = []
left_indices trimmed_len (x ∷ xs) =
    let others = left_indices trimmed_len xs in
    if leb trimmed_len (x + dots_len) && ltb (dots_len - 1) (x + dots_len - trimmed_len)
    then (x + dots_len - trimmed_len) ∷ others
    else others

module _ (char_width : ℕ → Option ℕ) (tabstop : ℕ) where
  -- The columns after one more char, for a `tabstop` that is not 0, as a remainder by 0 panics.
  unfoldable pub column_after : ℕ → ℕ → ℕ
  column_after w ch =
      let next_stop = tabstop - w % tabstop in
      let width : ℕ = elim (char_width ch) [ none ↦ 2 | some n ↦ n ] in
      if ch == 9 then w + next_stop else w + width

  unfoldable pub columns_from : ℕ → Text → ℕ
  unfolding column_after
  columns_from w [] = w
  columns_from w (ch ∷ text) = columns_from (column_after w ch) text

  unfoldable pub display_width : Text → ℕ
  unfolding columns_from
  display_width text = columns_from 0 text

  unfoldable pub accumulate_from : ℕ → Text → List ℕ
  unfolding column_after
  accumulate_from w [] = []
  accumulate_from w (ch ∷ text) = column_after w ch ∷ accumulate_from (column_after w ch) text

  unfoldable pub accumulate_text_width : Text → List ℕ
  unfolding accumulate_from
  accumulate_text_width text = accumulate_from 0 text

  -- The loop of `trim_left`: each round removes a char.
  unfoldable pub narrow : ℕ → Text → ℕ → Cut
  unfolding display_width
  narrow width [] trimmed_chars_len = record { rest = []; dropped = trimmed_chars_len }
  narrow width (c ∷ text) trimmed_chars_len =
      let next = narrow width text (trimmed_chars_len + 1) in
      if ltb width (display_width (c ∷ text))
      then next
      else record { rest = c ∷ text; dropped = trimmed_chars_len }

  unfoldable pub trim_left : Text → ℕ → Cut
  unfolding narrow add_usize sub_usize
  trim_left text width =
      let chars_count = length text in
      let diff = sub_usize (sub_usize chars_count width) dots_len in
      if ltb (add_usize width dots_len) chars_count
      then narrow width (drop diff text) diff
      else narrow width text 0

  -- `none` is the panic of a slice, which does not arise.
  unfoldable pub trim_right : Text → ℕ → Option Text
  unfolding display_width boundary_before slice_to
  trim_right text width =
      if ltb width (display_width text)
      then slice_to text (boundary_before text width)
      else some text

  -- ..ring
  unfoldable pub trimmed_left : Text → List ℕ → ℕ → TrimmedText
  unfolding trim_left left_indices
  trimmed_left text indices width =
      let cut = trim_left text width in
      record {
        trimmed_text = dots ∷ cut.rest;
        indices = left_indices cut.dropped indices;
        trim_info = left cut.dropped;
      }

  -- Stri..
  unfoldable pub trimmed_right : Text → List ℕ → ℕ → Option TrimmedText
  unfolding trim_right sub_usize
  trimmed_right text indices container_width = do
    rest ← trim_right text (sub_usize container_width dots_len)
    some (record {
      trimmed_text = rest ++ dots ∷ [];
      indices = filter (λ x. ltb (x + dots_len) container_width) indices;
      trim_info = right;
    })

  -- ..ri..
  unfoldable pub trimmed_both : Text → List ℕ → ℕ → ℕ → ℕ → Option TrimmedText
  unfolding trim_right slice_from sub_usize
  trimmed_both text indices match_start match_start_byte_idx container_width = do
    left_truncated_text ← slice_from text match_start_byte_idx
    rest ← trim_right left_truncated_text (sub_usize (sub_usize container_width dots_len) dots_len)
    some (record {
      trimmed_text = dots ∷ rest ++ dots ∷ [];
      indices =
          filter (λ x. ltb (x + dots_len) container_width)
            (map (λ x. sub_usize x match_start + dots_len) indices);
      trim_info = both match_start_byte_idx;
    })

  abbrev pub trimmed_or_panic : Option TrimmedText → Trim
  trimmed_or_panic none = panicked
  trimmed_or_panic (some t) = trimmed t

  -- The widths before, of, and after the matches.
  unfoldable pub choose : Text → List ℕ → ℕ → ℕ → ℕ → ℕ → ℕ → Trim
  unfolding trimmed_left trimmed_right trimmed_both byte_of_char sub_usize
  choose text indices match_start container_width w1 w2 w3 =
      let in_both : Trim = elim (byte_of_char text match_start) [
        | none ↦ untrimmed
        | some idx ↦ trimmed_or_panic (trimmed_both text indices match_start idx container_width)
      ] in
      if (ltb w3 w1 && leb (w2 + w3) container_width) || leb w3 2
      then trimmed (trimmed_left text indices (sub_usize container_width dots_len))
      else if leb w1 w3 && leb (w1 + w2) container_width
      then trimmed_or_panic (trimmed_right text indices container_width)
      else in_both

  -- The width in front of the first match.
  unfoldable pub width_before : List ℕ → ℕ → Option ℕ
  width_before acc_width zero = some 0
  width_before acc_width (suc n) = get_elem? acc_width n

  unfoldable pub width_of_matches : List ℕ → ℕ → ℕ → ℕ → ℕ
  unfolding sub_usize
  width_of_matches acc_width match_end full_width w1 = elim (get_elem? acc_width match_end) [
    | none ↦ sub_usize full_width w1
    | some w ↦ sub_usize w w1
  ]

  unfoldable pub trim_matches : Text → List ℕ → ℕ → ℕ → ℕ → ℕ → Trim
  unfolding choose width_before width_of_matches accumulate_text_width sub_usize
  trim_matches text indices match_start match_end full_width container_width =
      elim (width_before (accumulate_text_width text) match_start) [
        | none ↦ panicked
        | some w1 ↦
            let w2 = width_of_matches (accumulate_text_width text) match_end full_width w1 in
            choose text indices match_start container_width w1 w2
              (sub_usize (sub_usize full_width w1) w2)
      ]

  -- No index at all is the panic of `indices[0]`.
  unfoldable pub trim_text : Text → List ℕ → ℕ → Trim
  unfolding trim_matches accumulate_text_width
  trim_text text [] container_width = panicked
  trim_text text (match_start ∷ more) container_width = elim (last (match_start ∷ more)) [
    | none ↦ untrimmed
    | some match_end ↦ elim (last (accumulate_text_width text)) [
      | none ↦ untrimmed
      | some full_width ↦
          if leb full_width container_width
          then untrimmed
          else trim_matches text (match_start ∷ more) match_start match_end full_width
              container_width
    ]
  ]

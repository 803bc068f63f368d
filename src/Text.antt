-- ===== src/Text.antt =====
-- Rust's `str`: a text is the list of its chars (code points), and byte positions are sums of the
-- widths of their UTF-8 encodings. The methods of `str` that the crates call, by clauses; the case
-- mappings of Unicode are a parameter (`Unicode`).
pub mod Affixes
use Prim.Native.Char.{code}
use Prim.Native.String.{String}
use mathlib.Core.List.{reverse}
use mathlib.Core.Option
use vim_clap.Common.{
  arith, ◌<◌, ℕ, zero, suc, ◌+◌, ◌-◌, Bool, true, false, ◌&&◌, ◌||◌, Option, none, some, List, [],
  ◌∷◌, ◌++◌, ltb, leb, ◌==◌, if◌then◌else◌,
}

abbrev pub Text : Type 0
Text = List ℕ

-- The chars of a literal.
abbrev pub codes : String → Text
codes String.[] = []
codes (String.◌∷◌ c s) = code c ∷ codes s

-- What the code uses of Unicode's case tables.
pub record Unicode : Type 0 where
  pub to_lowercase : Text → Text
  pub is_uppercase : ℕ → Bool

-- `char::len_utf8`
unfoldable pub len_utf8 : ℕ → ℕ
len_utf8 c = if ltb c 0x80 then 1 else if ltb c 0x800 then 2 else if ltb c 0x10000 then 3 else 4

-- `str::len`, in bytes
unfoldable pub byte_len : Text → ℕ
byte_len [] = 0
byte_len (c ∷ cs) = len_utf8 c + byte_len cs

-- A text that is not empty takes bytes.
pub byte_len-pos : (c : ℕ) (cs : Text) → 0 < byte_len (c ∷ cs)
unfolding byte_len len_utf8
byte_len-pos c cs = ground arith

-- `char::is_whitespace`: the property White_Space.
unfoldable pub is_whitespace : ℕ → Bool
is_whitespace c =
    (leb 0x9 c && leb c 0xd)
    || c == 0x20
    || c == 0x85
    || c == 0xa0
    || c == 0x1680
    || (leb 0x2000 c && leb c 0x200a)
    || c == 0x2028
    || c == 0x2029
    || c == 0x202f
    || c == 0x205f
    || c == 0x3000

-- `==` on texts
abbrev pub text_eq : Text → Text → Bool
text_eq [] [] = true
text_eq [] (d ∷ ds) = false
text_eq (c ∷ cs) [] = false
text_eq (c ∷ cs) (d ∷ ds) = c == d && text_eq cs ds

-- `text.strip_prefix(pat)`
unfoldable pub strip_prefix : Text → Text → Option Text
strip_prefix t [] = some t
strip_prefix [] (p ∷ ps) = none
strip_prefix (c ∷ cs) (p ∷ ps) = let rest = strip_prefix cs ps in if c == p then rest else none

-- `text.strip_suffix(pat)`
unfoldable pub strip_suffix : Text → Text → Option Text
unfolding strip_prefix
strip_suffix t p = elim (strip_prefix (reverse t) (reverse p)) [
  | none ↦ none
  | some r ↦ some (reverse r)
]

-- `text.starts_with(pat)`
unfoldable pub starts_with : Text → Text → Bool
starts_with t [] = true
starts_with [] (p ∷ ps) = false
starts_with (c ∷ cs) (p ∷ ps) = c == p && starts_with cs ps

-- `text.ends_with(pat)`
unfoldable pub ends_with : Text → Text → Bool
unfolding starts_with
ends_with t p = starts_with (reverse t) (reverse p)

-- `text.find(pat)`: the byte position of the first occurrence
unfoldable pub find : Text → Text → Option ℕ
unfolding starts_with len_utf8
find [] p = if starts_with [] p then some 0 else none
find (c ∷ cs) p =
    let rest = Option.map (λ i. len_utf8 c + i) (find cs p) in
    if starts_with (c ∷ cs) p then some 0 else rest

-- `text.contains(pat)`
unfoldable pub contains : Text → Text → Bool
unfolding starts_with
contains [] p = starts_with [] p
contains (c ∷ cs) p = starts_with (c ∷ cs) p || contains cs p

unfoldable pub trim_start : Text → Text
unfolding is_whitespace
trim_start [] = []
trim_start (c ∷ cs) = let rest = trim_start cs in if is_whitespace c then rest else c ∷ cs

unfoldable pub trim_end : Text → Text
unfolding trim_start
trim_end t = reverse (trim_start (reverse t))

unfoldable pub trim : Text → Text
unfolding trim_start trim_end
trim t = trim_end (trim_start t)

-- The word read so far, if there is one.
abbrev pub flush : Text → List Text
flush [] = []
flush (c ∷ cs) = (c ∷ cs) ∷ []

abbrev pub split_words : Text → Text → List Text
split_words word [] = flush word
split_words word (c ∷ cs) = elim (is_whitespace c) [
  | true ↦ flush word ++ split_words [] cs
  | false ↦ split_words (word ++ c ∷ []) cs
]

-- `text.split_whitespace()`
unfoldable pub split_whitespace : Text → List Text
unfolding is_whitespace
split_whitespace t = split_words [] t

-- `text.len() - rest.len()` bytes of `&text[n..]` and `&text[..n]`; `none` is the panic of a position
-- that is out of range or inside a char.
unfoldable pub slice_from : Text → ℕ → Option Text
unfolding len_utf8
slice_from t zero = some t
slice_from [] (suc n) = none
slice_from (c ∷ cs) (suc n) =
    let rest = slice_from cs (suc n - len_utf8 c) in if leb (len_utf8 c) (suc n) then rest else none

unfoldable pub slice_to : Text → ℕ → Option Text
unfolding len_utf8
slice_to t zero = some []
slice_to [] (suc n) = none
slice_to (c ∷ cs) (suc n) =
    let rest = Option.map (λ r. c ∷ r) (slice_to cs (suc n - len_utf8 c)) in
    if leb (len_utf8 c) (suc n) then rest else none

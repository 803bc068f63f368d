-- ===== src/Types/SearchTerm.antt =====
-- crates/types/src/search_term.rs: the terms of a query.
pub mod Print
pub mod Superset
use vim_clap.Common.{
  ℕ, ◌+◌, ◌/◌, ◌<◌, Bool, true, false, Option, none, some, if◌then◌else◌, max, ltb, ◌^◌,
}
use vim_clap.Common.Int.{ℤ, pos}
use vim_clap.Text.{
  Text, codes, byte_len, strip_prefix, strip_suffix, starts_with, ends_with, contains, trim,
}
use vim_clap.Types.Rank.{Score}

pub data ExactTermType : Type 0 where
  exact prefix_exact suffix_exact : ExactTermType

pub record ExactTerm : Type 0 where
  pub ty : ExactTermType
  pub text : Text

-- `ExactTerm::is_superset`
unfoldable pub is_superset_exact : ExactTerm → ExactTerm → Bool
unfolding starts_with
is_superset_exact a b = elim (a.ty) [
  | exact ↦ elim (b.ty) [
    | exact ↦ starts_with b.text a.text
    | prefix_exact ↦ true
    | suffix_exact ↦ true
  ]
  | prefix_exact ↦ elim (b.ty) [ prefix_exact ↦ starts_with b.text a.text | _ ↦ false ]
  | suffix_exact ↦ elim (b.ty) [ suffix_exact ↦ starts_with b.text a.text | _ ↦ false ]
]

pub data InverseTermType : Type 0 where
  inverse_exact inverse_prefix_exact inverse_suffix_exact : InverseTermType

pub record InverseTerm : Type 0 where
  pub ty : InverseTermType
  pub text : Text

-- `InverseTerm::is_superset`
unfoldable pub is_superset_inverse : InverseTerm → InverseTerm → Bool
unfolding starts_with
is_superset_inverse a b = elim (a.ty) [
  | inverse_exact ↦ elim (b.ty) [ inverse_exact ↦ starts_with a.text b.text | _ ↦ false ]
  | inverse_prefix_exact ↦ elim (b.ty) [
    | inverse_exact ↦ true
    | inverse_prefix_exact ↦ starts_with a.text b.text
    | inverse_suffix_exact ↦ false
  ]
  | inverse_suffix_exact ↦ elim (b.ty) [
    | inverse_exact ↦ true
    | inverse_prefix_exact ↦ false
    | inverse_suffix_exact ↦ starts_with a.text b.text
  ]
]

-- `InverseTerm::exact_matched`
unfoldable pub exact_matched : InverseTerm → Text → Bool
unfolding trim contains starts_with ends_with
exact_matched term full_search_line =
    let haystack = trim full_search_line in
    elim (term.ty) [
      | inverse_exact ↦ contains haystack term.text
      | inverse_prefix_exact ↦ starts_with haystack term.text
      | inverse_suffix_exact ↦ ends_with haystack term.text
    ]

pub data FuzzyTermType : Type 0 where
  fuzzy : FuzzyTermType

pub record FuzzyTerm : Type 0 where
  pub ty : FuzzyTermType
  pub text : Text

-- `FuzzyTerm::len`, in bytes
unfoldable pub len : FuzzyTerm → ℕ
unfolding byte_len
len t = byte_len t.text

pub data TermType : Type 0 where
  fuzzy : FuzzyTermType → TermType
  exact : ExactTermType → TermType
  inverse : InverseTermType → TermType
  word : TermType

pub record WordTerm : Type 0 where
  pub text : Text

-- `WordTerm::score`: 0 where the sum does not fit an `i32`.
unfoldable pub word_score : WordTerm → ℕ → Score
unfolding byte_len
word_score t match_start =
    let score = byte_len t.text + 1024 / max match_start 1 in
    if ltb score (2 ^ 31) then pos score else pos 0

unfoldable pub is_inverse : TermType → Bool
is_inverse ty = elim ty [ inverse _ ↦ true | _ ↦ false ]

unfoldable pub is_exact : TermType → Bool
is_exact ty = elim ty [ TermType.exact _ ↦ true | _ ↦ false ]

pub record SearchTerm : Type 0 where
  pub ty : TermType
  pub text : Text

unfoldable pub is_inverse_term : SearchTerm → Bool
unfolding is_inverse
is_inverse_term t = is_inverse t.ty

unfoldable pub is_exact_term : SearchTerm → Bool
unfolding is_exact
is_exact_term t = is_exact t.ty

abbrev pub new_term : TermType → Text → SearchTerm
new_term ty text = record { ty = ty; text = text }

-- `From<&str> for SearchTerm`, after the `!`.
unfoldable pub parse_inverse : Text → SearchTerm
unfolding strip_prefix strip_suffix
parse_inverse stripped = elim (strip_prefix stripped (codes "^")) [
  | some double_stripped ↦ new_term (inverse inverse_prefix_exact) double_stripped
  | none ↦ elim (strip_suffix stripped (codes "$")) [
    | some double_stripped ↦ new_term (inverse inverse_suffix_exact) double_stripped
    | none ↦ new_term (inverse inverse_exact) stripped
  ]
]

-- `From<&str> for SearchTerm`
unfoldable pub parse_term : Text → SearchTerm
unfolding strip_prefix strip_suffix parse_inverse
parse_term s = elim (strip_prefix s (codes "\"")) [
  | some stripped ↦ new_term word stripped
  | none ↦ elim (strip_prefix s (codes "'")) [
    | some stripped ↦ new_term (TermType.exact ExactTermType.exact) stripped
    | none ↦ elim (strip_prefix s (codes "^")) [
      | some stripped ↦ new_term (TermType.exact prefix_exact) stripped
      | none ↦ elim (strip_prefix s (codes "!")) [
        | some stripped ↦ parse_inverse stripped
        | none ↦ elim (strip_suffix s (codes "$")) [
          | some stripped ↦ new_term (TermType.exact suffix_exact) stripped
          | none ↦ new_term (TermType.fuzzy FuzzyTermType.fuzzy) s
        ]
      ]
    ]
  ]
]

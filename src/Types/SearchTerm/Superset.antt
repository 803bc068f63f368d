-- ===== src/Types/SearchTerm/Superset.antt =====
-- What `is_superset` promises of inverse terms: the lines that pass one pass the other.
use vim_clap.Common.{◌⊎◌, ◌≡◌, true, false, arith}
use vim_clap.Text.{Text, trim}
use vim_clap.Text.Affixes.{starts_with_trans, contains-starts_with}
use vim_clap.Types.SearchTerm.{
  InverseTerm, inverse_exact, inverse_prefix_exact, is_superset_inverse, exact_matched,
}

-- Of two inverse terms of one type, both `!text` or both `!^text`: where `is_superset` holds, every line
-- that passes the second term passes the first.
exact_matched-is_superset :
    (a b : InverseTerm) (line : Text)
    → a.ty ≡ b.ty
    → (a.ty ≡ inverse_exact) ⊎ (a.ty ≡ inverse_prefix_exact)
    → is_superset_inverse a b ≡ true
    → exact_matched b line ≡ false
    → exact_matched a line ≡ false
unfolding is_superset_inverse exact_matched
exact_matched-is_superset a b line same kind h k = ground (
  arith,
  contains-starts_with (trim line) a.text b.text,
  starts_with_trans (trim line) a.text b.text,
)

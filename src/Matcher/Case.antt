-- ===== src/Matcher/Case.antt =====
-- `CaseMatching` in the substring algorithm of crates/matcher/src/algo/substring.rs.
use vim_clap.Common.{◌≤◌, ◌≡◌, refl, false, arith, ltb}
use vim_clap.Text.{Text, Unicode, byte_len}
use vim_clap.Types.Scope.{respect}
use vim_clap.Matcher.Substring.{Float, substr_indices, unordered_substr_indices_impl}

module _ {F : Type 0} (u : Unicode) (f : Float F) where
  -- An exact term that is to respect the case does not: two lines that are the same in lowercase, of
  -- at most 1024 bytes each, are matched alike.
  substr_indices-respect :
      (line line' needle : Text)
      → byte_len line ≤ 1024
      → byte_len line' ≤ 1024
      → u.to_lowercase line ≡ u.to_lowercase line'
      → substr_indices u f line needle respect ≡ substr_indices u f line' needle respect
  unfolding substr_indices unordered_substr_indices_impl
  substr_indices-respect line line' needle h h' e = rw (short line h, short line' h', e) refl
    where
      short : (l : Text) → byte_len l ≤ 1024 → ltb 1024 (byte_len l) ≡ false
      short l h = ground arith

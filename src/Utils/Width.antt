-- ===== src/Utils/Width.antt =====
-- `display_width` counts the decimal digits, and its fuel is enough.
use vim_clap.Common.{◌≢◌, ℕ, zero, suc, ◌+◌, ◌/◌, ◌≤◌, ◌≡◌, ◌==◌, arith, Bool-cases, inl, inr}
use vim_clap.Utils.{display_width, count_digits}
use mathlib.Core.Path.{subst}

-- `n` has `d` decimal digits, where 0 has none.
abbrev pub HasDigits : ℕ → ℕ → Type 0
HasDigits n zero = n ≡ 0
HasDigits n (suc d) = (n ≢ 0) × HasDigits (n / 10) d

count_digits-HasDigits :
    (fuel n len : ℕ) → n ≤ fuel → (d : ℕ) × (count_digits fuel n len ≡ len + d) × HasDigits n d
unfolding count_digits
count_digits-HasDigits zero n len h = (0, omega arith, omega arith)
count_digits-HasDigits (suc fuel) n len h = elim (Bool-cases (n == 0)) [
  | inl e ↦ (0, rw e (omega arith), ground arith)
  | inr e ↦
      let (d, p, q) = count_digits-HasDigits fuel (n / 10) (len + 1) (ground arith) in
      (suc d, rw e (omega (arith, p)), (ground arith, q))
]

-- The width of a number that is not 0 is the number of its decimal digits; the fuel is never used up.
pub display_width-HasDigits : (n : ℕ) → n ≢ 0 → HasDigits n (display_width n)
unfolding display_width
display_width-HasDigits n h =
    let (d, p, q) = count_digits-HasDigits n n 0 (omega arith) in
    let same : d ≡ display_width n = ground (arith, p) in subst (HasDigits n) same q

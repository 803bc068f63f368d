-- ===== src/Ctags/Fits.antt =====
-- The path in the bar of a window: `shrink_text_to_fit` of crates/maple_core/src/stdio_server/winbar.rs.
use vim_clap.Common.{
  ℕ, ◌+◌, ◌-◌, ◌/◌, ◌≤◌, [], ◌∷◌, take, drop, length, length-append, length-take, length-drop, ltb,
  arith, Bool-cases, inl, inr,
}
use vim_clap.Text.{Text, byte_len, len_utf8}
use vim_clap.Ctags.{shrink_text_to_fit}

length-byte_len : (t : Text) → length t ≤ byte_len t
unfolding byte_len len_utf8
length-byte_len [] = omega arith
length-byte_len (c ∷ cs) = ground (arith, length-byte_len cs)

-- The path that is shown, cut in its middle where it is too long, has at most as many chars as the window is
-- wide, whatever chars it has, if the window is not empty.
pub shrink_text_to_fit-length :
    (path : Text) (max_width : ℕ)
    → 1 ≤ max_width
    → length (shrink_text_to_fit path max_width) ≤ max_width
unfolding shrink_text_to_fit
shrink_text_to_fit-length path max_width h = elim (Bool-cases (ltb (byte_len path) max_width)) [
  | inl e ↦ rw e (ground (arith, length-byte_len path))
  | inr e ↦
      let to_shrink_len = byte_len path - max_width in
      let left = take (max_width / 2) path in
      let right = drop (max_width / 2 + 1 + to_shrink_len) path in
      rw e (
        ground (
          arith,
          length-byte_len path,
          length-append left (0x2026 ∷ right),
          length-take (max_width / 2) path,
          length-drop (max_width / 2 + 1 + to_shrink_len) path,
        ))
]

-- ===== src/Tests/Lines.antt =====
-- Lines and positions.
use vim_clap.Common.Options.{is_some}
use vim_clap.Common.{
  none, refl, ltb, if◌then◌else◌, ◌&&◌, arith, ◌≡◌, ◌⊎◌, true, some, [], ◌∷◌, ◌++◌, all, map,
  filter, length,
}
use vim_clap.Text.{codes}
use vim_clap.Utils.{mem, char_index_for, char_indices_to_byte_indices, display_width}
use vim_clap.Utils.Width.{HasDigits, display_width-HasDigits}
use vim_clap.Utils.Positions.{range, char_index_for-char_indices}
use vim_clap.Utils.ByteLines.{nl, Bytes, Utf8, lines}
use vim_clap.Utils.ByteLines.Laws.{is_line, unlines, IsUtf8, lines-unlines}

display_width-HasDigits_example : HasDigits 120 (display_width 120)
display_width-HasDigits_example = display_width-HasDigits 120 (λ h. ground arith)

char_index_for-char_indices_example :
    map (char_index_for (codes "aéb")) (char_indices_to_byte_indices (codes "aéb") (1 ∷ 2 ∷ 7 ∷ []))
    ≡ map some (filter (λ i. mem i (1 ∷ 2 ∷ 7 ∷ [])) (range 0 (length (codes "aéb"))))
char_index_for-char_indices_example = char_index_for-char_indices (codes "aéb") (1 ∷ 2 ∷ 7 ∷ [])

-- ASCII is UTF-8; what is not ASCII is taken as question marks.
abbrev ascii : Utf8
ascii = record {
  from_utf8 = λ b. if all (λ c. ltb c 128) b then some b else none;
  from_utf8_lossy = λ b. map (λ c. b'?') b;
}

ascii-IsUtf8 : IsUtf8 ascii (λ s. s)
ascii-IsUtf8 = record { encoded = λ b s h. same b s h; parts = λ a b. cut a b }
  where
    same : (b s : Bytes) → ascii.from_utf8 b ≡ some s → s ≡ b
    same b s h = ground arith

    all-append :
        (a b : Bytes)
        → all (λ c. ltb c 128) (a ++ nl ∷ b) ≡ (all (λ c. ltb c 128) a && all (λ c. ltb c 128) b)
    all-append [] b = refl
    all-append (c ∷ a) b = ground (arith, all-append a b)

    cut :
        (a b : Bytes)
        → is_some (ascii.from_utf8 (a ++ nl ∷ b))
          ≡ (is_some (ascii.from_utf8 a) && is_some (ascii.from_utf8 b))
    cut a b = ground (arith, all-append a b)

lines-unlines_example :
    ((unlines (map (λ s. s) (lines ascii (97 ∷ nl ∷ 98 ∷ []))) ≡ 97 ∷ nl ∷ 98 ∷ [])
      ⊎ (unlines (map (λ s. s) (lines ascii (97 ∷ nl ∷ 98 ∷ []))) ≡ (97 ∷ nl ∷ 98 ∷ []) ++ nl ∷ []))
    × (all is_line (map (λ s. s) (lines ascii (97 ∷ nl ∷ 98 ∷ []))) ≡ true)
lines-unlines_example = lines-unlines ascii (λ s. s) ascii-IsUtf8 (97 ∷ nl ∷ 98 ∷ []) refl

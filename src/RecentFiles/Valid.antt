-- ===== src/RecentFiles/Valid.antt =====
-- What `remove_invalid_entries` keeps.
use vim_clap.Common.{
  ◌≤◌, ◌≡◌, refl, Bool, true, false, none, some, List, [], ◌∷◌, any, count, all, arith,
  Option-cases, inl, inr,
}
use vim_clap.Text.{Text, text_eq}
use vim_clap.Text.Affixes.{text_eq-eq}
use vim_clap.RecentFiles.{
  FileSystem, FrecentEntry, SortedRecentFiles, keep_valid, remove_invalid_entries,
}

-- The entry stands for the file at a canonical path.
abbrev pub is_at : {Time : Type 0} → FileSystem → Text → FrecentEntry Time → Bool
is_at fs path e = elim (fs.canonicalize e.fpath) [ none ↦ false | some q ↦ text_eq q path ]

abbrev pub is_valid : {Time : Type 0} → FileSystem → FrecentEntry Time → Bool
is_valid fs e = elim (fs.canonicalize e.fpath) [ none ↦ false | some q ↦ fs.is_file q ]

module _ {Time : Type 0} (fs : FileSystem) where
  keep_valid-is_valid :
      (paths : List Text) (es : List (FrecentEntry Time))
      → all (is_valid fs) (keep_valid fs paths es) ≡ true
  unfolding keep_valid
  keep_valid-is_valid paths [] = refl
  keep_valid-is_valid paths (e ∷ es) = elim (Option-cases (fs.canonicalize e.fpath)) [
    | inl h ↦ ground (arith, h, keep_valid-is_valid paths es)
    | inr (path, h) ↦
        ground (arith, h, keep_valid-is_valid paths es, keep_valid-is_valid (path ∷ paths) es)
  ]

  -- A path that was seen is not kept again.
  keep_valid-seen :
      (p : Text) (paths : List Text) (es : List (FrecentEntry Time))
      → any (λ q. text_eq q p) paths ≡ true
      → count (is_at fs p) (keep_valid fs paths es) ≡ 0
  unfolding keep_valid
  keep_valid-seen p paths [] h = refl
  keep_valid-seen p paths (e ∷ es) h = elim (Option-cases (fs.canonicalize e.fpath)) [
    | inl k ↦ ground (arith, k, keep_valid-seen p paths es h)
    | inr (path, k) ↦ ground (
      arith,
      k,
      keep_valid-seen p paths es h,
      keep_valid-seen p (path ∷ paths) es (ground arith),
      text_eq-eq path p,
    )
  ]

  keep_valid-distinct :
      (p : Text) (paths : List Text) (es : List (FrecentEntry Time))
      → count (is_at fs p) (keep_valid fs paths es) ≤ 1
  unfolding keep_valid
  keep_valid-distinct p paths [] = omega arith
  keep_valid-distinct p paths (e ∷ es) = elim (Option-cases (fs.canonicalize e.fpath)) [
    | inl k ↦ ground (arith, k, keep_valid-distinct p paths es)
    | inr (path, k) ↦ ground (
      arith,
      k,
      keep_valid-distinct p paths es,
      keep_valid-distinct p (path ∷ paths) es,
      keep_valid-seen p (path ∷ paths) es,
    )
  ]

  -- Each entry that is left stands for a file that exists, and no two of them for one file, whatever
  -- paths they name it by.
  remove_invalid_entries-distinct :
      (s : SortedRecentFiles Time) (p : Text)
      → (all (is_valid fs) (remove_invalid_entries fs s).entries ≡ true)
        × (count (is_at fs p) (remove_invalid_entries fs s).entries ≤ 1)
  unfolding remove_invalid_entries
  remove_invalid_entries-distinct s p =
      (keep_valid-is_valid [] s.entries, keep_valid-distinct p [] s.entries)

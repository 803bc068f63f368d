-- ===== src/RecentFiles/Laws.antt =====
-- What an update of the recent files keeps, and what it does to the file.
use vim_clap.Common.{
  count-take, ◌∙◌, ap, length-take, inr, take_of_length-le, ◌*◌, inl, ◌<◌, Bool-cases, suc, ◌≤◌,
  ◌≡◌, refl, true, false, ◌||◌, List, [], ◌∷◌, if◌then◌else◌, length, any, count, arith,
}
use vim_clap.Common.Order.{
  any-sort, sort-IsSorted, take-IsSorted, length-sort, count-sort, sort, IsSorted,
}
use vim_clap.Text.{Text, text_eq}
use vim_clap.Text.Affixes.{text_eq-eq}
use vim_clap.RecentFiles.{
  wrap_u64, pos, upsert, Clock, FrecentEntry, SortedRecentFiles, has_path, new_entry, entry_gt,
  update_frecent, refresh_now, visit,
}

-- No file stands twice, there are at most `max_entries`, the best score stands first.
pub record IsRecent {Time : Type 0} (clock : Clock Time) (s : SortedRecentFiles Time) : Type 0 where
  pub distinct : (p : Text) → count (has_path p) s.entries ≤ 1
  pub bounded : length s.entries ≤ s.max_entries
  pub sorted : IsSorted (entry_gt clock) s.entries

module _ {Time : Type 0} (clock : Clock Time) where
  path-refresh_now :
      (now : Time) (e : FrecentEntry Time) → (refresh_now clock now e).fpath ≡ e.fpath
  unfolding refresh_now update_frecent
  path-refresh_now now e = refl

  -- The entries of a path after the visit of a file.
  count-visit :
      (now : Time) (file p : Text) (es : List (FrecentEntry Time))
      → count (has_path p) (visit clock now file es) ≡ (
          if any (has_path file) es
          then count (has_path p) es
          else (if text_eq file p then suc (count (has_path p) es) else count (has_path p) es))
  unfolding visit new_entry refresh_now update_frecent
  count-visit now file p [] = ground arith
  count-visit now file p (e ∷ es) = ground (arith, count-visit now file p es)

  absent-count :
      (p : Text) (es : List (FrecentEntry Time))
      → any (has_path p) es ≡ false
      → count (has_path p) es ≡ 0
  absent-count p [] h = refl
  absent-count p (e ∷ es) h = ground (arith, absent-count p es)

  any-visit :
      (now : Time) (file p : Text) (es : List (FrecentEntry Time))
      → any (has_path p) (visit clock now file es) ≡ (text_eq file p || any (has_path p) es)
  unfolding visit new_entry refresh_now update_frecent
  any-visit now file p [] = ground arith
  any-visit now file p (e ∷ es) = ground (arith, any-visit now file p es, text_eq-eq e.fpath file)

  entry_gt_asym :
      ((a b : Time) → clock.later a b ≡ true → clock.later b a ≡ false)
      → (a b : FrecentEntry Time) → entry_gt clock a b ≡ true
      → entry_gt clock b a ≡ false
  entry_gt_asym asym a b h = ground (arith, asym a.last_visit b.last_visit)

  distinct-visit :
      (now : Time) (file : Text) (es : List (FrecentEntry Time))
      → ((p : Text) → count (has_path p) es ≤ 1)
      → (p : Text) → count (has_path p) (visit clock now file es) ≤ 1
  distinct-visit now file es h p = elim (Bool-cases (text_eq file p)) [
    | inl same ↦
        ground (arith, count-visit now file p es, h p, absent-count file es, text_eq-eq file p same)
    | inr e ↦ ground (arith, count-visit now file p es, h p)
  ]

  length-visit :
      (now : Time) (file : Text) (es : List (FrecentEntry Time))
      → length (visit clock now file es) ≤ suc (length es)
  unfolding visit
  length-visit now file [] = omega arith
  length-visit now file (e ∷ es) = ground (arith, length-visit now file es)

  -- If the clock never says of two times that each is later than the other, an update leaves the files
  -- without repetitions, within their bound and sorted by score, visits and last visit, if they had no
  -- repetitions; they need not have been sorted or bounded.
  pub upsert-IsRecent :
      ((a b : Time) → clock.later a b ≡ true → clock.later b a ≡ false)
      → (now : Time) (file : Text) (s : SortedRecentFiles Time)
      → ((p : Text) → count (has_path p) s.entries ≤ 1)
      → IsRecent clock (upsert clock now file s)
  unfolding upsert
  upsert-IsRecent asym now file s h =
      let visited = visit clock now file s.entries in
      let sorted = sort (entry_gt clock) visited in
      record {
        distinct = λ p. omega (
          arith,
          count-take (has_path p) s.max_entries sorted,
          count-sort (entry_gt clock) (has_path p) visited,
          distinct-visit now file s.entries h p,
        );
        bounded = omega (arith, length-take s.max_entries sorted);
        sorted =
            take-IsSorted (entry_gt clock) s.max_entries sorted
              (sort-IsSorted (entry_gt_asym asym) visited);
      }

  -- While there is room for one more entry, an update adds the file and forgets none.
  upsert-any :
      (now : Time) (file p : Text) (s : SortedRecentFiles Time)
      → length s.entries < s.max_entries
      → any (has_path p) (upsert clock now file s).entries
        ≡ (text_eq file p || any (has_path p) s.entries)
  unfolding upsert
  upsert-any now file p s h =
      let visited = visit clock now file s.entries in
      let sorted = sort (entry_gt clock) visited in
      let whole =
        take_of_length-le s.max_entries sorted
          (omega (arith, length-sort (entry_gt clock) visited, length-visit now file s.entries)) in
      ap (any (has_path p)) whole
      ∙ any-sort (entry_gt clock) (has_path p) visited
      ∙ any-visit now file p s.entries

  -- If no time passes between a time and itself, the score of an entry that is visited again is four
  -- times its visits, however long ago the last visit was.
  refresh_now-score :
      ((t : Time) → clock.seconds_since t t ≡ pos 0)
      → (now : Time) (e : FrecentEntry Time)
      → (refresh_now clock now e).frecent_score ≡ wrap_u64 ((refresh_now clock now e).visits * 4)
  unfolding refresh_now update_frecent
  refresh_now-score h now e = ground (arith, h now)

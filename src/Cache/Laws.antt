-- ===== src/Cache/Laws.antt =====
-- The bound and the distinctness of the digests.
use vim_clap.Common.{
  get_elem?, length-set, ◌-◌, length-take, count-take, ◌+◌, length-append, inl, all, Option-cases,
  count-append, inr, Bool-cases, ◌++◌, ℕ, zero, suc, ◌≤◌, ◌≡◌, refl, true, List, [], ◌∷◌, none,
  some, length, set, count, position, arith,
}
use mathlib.Core.Path.{subst}
use vim_clap.Common.Order.{sort, count-sort}
use vim_clap.Common.Int.{ltb_ℤ}
use vim_clap.Text.Affixes.{text_eq-eq}
use vim_clap.Cache.{
  is_retained, stale_score, Disk, find_digest, evict, limited_push, remove_invalid_and_old_entries,
  Calendar, Digest, ShellCommand, command_eq, has_command, max_digests,
}

command_eq-eq : (a b : ShellCommand) → command_eq a b ≡ true → a ≡ b
command_eq-eq a b h =
    let command : a.command ≡ b.command = text_eq-eq a.command b.command (ground arith) in
    let dir : a.dir ≡ b.dir = text_eq-eq a.dir b.dir (ground arith) in
    λ i. record { command = command i; dir = dir i }

-- At most a hundred digests, and no two of one command.
pub record IsCache {Time : Type 0} (digests : List (Digest Time)) : Type 0 where
  pub bounded : length digests ≤ max_digests
  pub distinct : (c : ShellCommand) → count (has_command c) digests ≤ 1

module _ {Time : Type 0} where
  -- A digest that is written over one of its command.
  count-set :
      (c : ShellCommand) (v : Digest Time) (ds : List (Digest Time)) (i : ℕ)
      → position (has_command v.shell_cmd) ds ≡ some i
      → count (has_command c) (set ds i v) ≡ count (has_command c) ds
  count-set c v [] i h = ground arith
  count-set c v (d ∷ ds) zero h = ground (arith, command_eq-eq d.shell_cmd v.shell_cmd)
  count-set c v (d ∷ ds) (suc i) h = ground (arith, count-set c v ds i)

  absent-count :
      (c : ShellCommand) (ds : List (Digest Time))
      → position (has_command c) ds ≡ none
      → count (has_command c) ds ≡ 0
  absent-count c [] h = refl
  absent-count c (d ∷ ds) h = ground (arith, absent-count c ds)

  -- A command that is not there yet.
  pushed-distinct :
      (d : Digest Time) (ds : List (Digest Time)) (c : ShellCommand)
      → position (has_command d.shell_cmd) ds ≡ none
      → count (has_command c) ds ≤ 1
      → count (has_command c) (ds ++ d ∷ []) ≤ 1
  pushed-distinct d ds c absent h = elim (Bool-cases (command_eq d.shell_cmd c)) [
    | inr e ↦ ground (arith, count-append (has_command c) ds (d ∷ []))
    | inl e ↦
        let none_of = absent-count d.shell_cmd ds absent in
        let zero_of : count (has_command c) ds ≡ 0 =
          subst (λ x. count (has_command x) ds ≡ 0) (command_eq-eq d.shell_cmd c e) none_of in
        ground (arith, count-append (has_command c) ds (d ∷ []), zero_of)
  ]

module _ {Time : Type 0} (calendar : Calendar Time) where
  count-evict :
      (now : Time) (ds : List (Digest Time)) (c : ShellCommand)
      → count (has_command c) (evict calendar now ds) ≤ count (has_command c) ds
  unfolding evict
  count-evict now ds c =
      let sorted =
        sort (λ a b. ltb_ℤ (stale_score calendar now a) (stale_score calendar now b)) ds in
      ground (
        arith,
        count-take (has_command c) (length ds - 1) sorted,
        count-sort (λ a b. ltb_ℤ (stale_score calendar now a) (stale_score calendar now b))
            (has_command c) ds,
      )

  length-evict :
      (now : Time) (ds : List (Digest Time))
      → length ds ≤ suc max_digests
      → length (evict calendar now ds) ≤ max_digests
  unfolding evict
  length-evict now ds h =
      let sorted =
        sort (λ a b. ltb_ℤ (stale_score calendar now a) (stale_score calendar now b)) ds in
      ground (arith, length-take (length ds - 1) sorted)

  -- Pushing a digest keeps the digests of a cache: there are at most a hundred, and no two of one command.
  pub limited_push-IsCache :
      (now : Time) (digest : Digest Time) (ds : List (Digest Time))
      → IsCache ds
      → IsCache (limited_push calendar now digest ds)
  unfolding limited_push find_digest
  limited_push-IsCache now digest ds h =
      elim (Option-cases (position (has_command digest.shell_cmd) ds)) [
        | inl e ↦
            rw (e, limited_push, find_digest)
              (record {
                bounded =
                    length-evict now (ds ++ digest ∷ [])
                      (omega (arith, h.bounded, length-append ds (digest ∷ [])));
                distinct = λ c. omega (
                  arith,
                  count-evict now (ds ++ digest ∷ []) c,
                  pushed-distinct digest ds c e (h.distinct c),
                );
              })
        | inr (i, e) ↦ elim (Option-cases (get_elem? ds i)) [
          | inl f ↦ rw (e, f, limited_push, find_digest) h
          | inr (old, f) ↦
              let new = record digest {
                total_executions = digest.total_executions + old.total_executions;
              } in
              rw (e, f, limited_push, find_digest)
                (record {
                  bounded = omega (arith, h.bounded, length-set ds i new);
                  distinct = λ c. omega (arith, h.distinct c, count-set c new ds i e);
                })
        ]
      ]

  -- Every digest that is kept passes the test of `retain`, and there are as many removed files as
  -- digests that are not kept.
  remove_invalid_and_old_entries-partition :
      (disk : Disk) (now : Time) (ds : List (Digest Time))
      → (all (is_retained calendar disk now) (remove_invalid_and_old_entries calendar disk now ds).0
          ≡ true)
        × (length (remove_invalid_and_old_entries calendar disk now ds).0
              + length (remove_invalid_and_old_entries calendar disk now ds).1
            ≡ length ds)
  unfolding remove_invalid_and_old_entries
  remove_invalid_and_old_entries-partition disk now [] = (refl, refl)
  remove_invalid_and_old_entries-partition disk now (d ∷ ds) =
      ground (arith, remove_invalid_and_old_entries-partition disk now ds)

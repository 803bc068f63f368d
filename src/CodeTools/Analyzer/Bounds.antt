-- ===== src/CodeTools/Analyzer/Bounds.antt =====
-- The priorities of crates/code_tools/src/analyzer/mod.rs: the language bonus divides by them.
use mathlib.Core.Path.{subst}
use vim_clap.Common.{
  Bool, true, false, if◌then◌else◌, ℕ, ◌≤◌, ◌≡◌, Option, none, some, List, [], ◌∷◌, take, arith,
}
use vim_clap.Common.Options.{some-bind}
use vim_clap.Text.{codes, text_eq, starts_with, Text, split_whitespace}
use vim_clap.CodeTools.Analyzer.{
  is_one_of, rust, erlang, golang, viml, Keywords, keyword_priority, rust_keyword_priority,
  find_map, weigher, calculate_pattern_priority,
}

-- Every number that a function gives is between 3 and 10.
abbrev IsBounded : (Text → Option ℕ) → Type 0
IsBounded f = (t : Text) (n : ℕ) → f t ≡ some n → (3 ≤ n) × (n ≤ 10)

keyword_priority-IsBounded : (k : Keywords) → IsBounded (keyword_priority k)
unfolding keyword_priority
keyword_priority-IsBounded k t n h = ground arith

one_of_five :
    (a b c d e : Bool) (n : ℕ)
    → (if a
        then some 3
        else if b
        then some 6
        else if c
        then some 7
        else if d
        then some 8
        else if e
        then some 10
        else none)
      ≡ some n
    → (3 ≤ n) × (n ≤ 10)
one_of_five a b c d e n h = ground arith

rust_keyword_priority-IsBounded : IsBounded rust_keyword_priority
unfolding rust_keyword_priority
rust_keyword_priority-IsBounded t n h =
    one_of_five (is_one_of rust.definition t) (is_one_of rust.reference t)
      (starts_with t (codes "pub")) (is_one_of rust.statement t) (starts_with t (codes "[cfg")) n h

find_map-IsBounded :
    (f : Text → Option ℕ)
    → IsBounded f
    → (ts : List Text) (n : ℕ) → find_map f ts ≡ some n
    → (3 ≤ n) × (n ≤ 10)
find_map-IsBounded f b [] n h = ground arith
find_map-IsBounded f b (t ∷ ts) n h = ground (arith, b t n, find_map-IsBounded f b ts n)

-- A choice between functions that are bounded.
one_of_four :
    (a b c d : Bool) (e f g h : Text → Option ℕ)
    → IsBounded e
    → IsBounded f
    → IsBounded g
    → IsBounded h
    → (w : Text → Option ℕ)
    → (if a then some e else if b then some f else if c then some g else if d then some h else none)
      ≡ some w
    → IsBounded w
one_of_four true b c d e f g h p q r s w eq = subst IsBounded (cc eq) p
one_of_four false true c d e f g h p q r s w eq = subst IsBounded (cc eq) q
one_of_four false false true d e f g h p q r s w eq = subst IsBounded (cc eq) r
one_of_four false false false true e f g h p q r s w eq = subst IsBounded (cc eq) s
one_of_four false false false false e f g h p q r s w eq = ground arith

weigher-IsBounded : (ext : Text) (f : Text → Option ℕ) → weigher ext ≡ some f → IsBounded f
unfolding weigher
weigher-IsBounded ext f e =
    one_of_four (text_eq ext (codes "erl")) (text_eq ext (codes "go")) (text_eq ext (codes "rs"))
      (text_eq ext (codes "vim")) _ _ _ _ (keyword_priority-IsBounded erlang)
      (keyword_priority-IsBounded golang) rust_keyword_priority-IsBounded
      (keyword_priority-IsBounded viml) f e

-- A priority is between 3 and 10, so that the language bonus never divides by 0.
pub calculate_pattern_priority-bounds :
    (pattern ext : Text) (n : ℕ)
    → calculate_pattern_priority pattern ext ≡ some n
    → (3 ≤ n) × (n ≤ 10)
unfolding calculate_pattern_priority
calculate_pattern_priority-bounds pattern ext n h =
    let (f, e, found) =
      some-bind (weigher ext) (λ f. find_map f (take 3 (split_whitespace pattern))) h in
    find_map-IsBounded f (weigher-IsBounded ext f e) (take 3 (split_whitespace pattern)) n found

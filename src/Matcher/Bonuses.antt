-- ===== src/Matcher/Bonuses.antt =====
-- crates/matcher/src/matchers/bonus_matcher: what is added to the score of a match.
use vim_clap.Common.{
  ◌<◌, ◌≤◌, ◌≡◌, refl, arith, ℕ, Option, none, some, List, [], ◌∷◌, if◌then◌else◌, any, filter,
  length, leb, ltb,
}
use vim_clap.Common.Int.{pos, ◌*ℤ◌, ◌/ℤ◌, wrap_i32}
use vim_clap.Text.{
  Text, Unicode, codes, text_eq, byte_len, byte_len-pos, trim_start, starts_with, contains,
}
use vim_clap.Types.Rank.{Score, add_score, neg_score, as_score}
use vim_clap.CodeTools.Analyzer.{calculate_pattern_priority}
use vim_clap.CodeTools.Analyzer.Bounds.{calculate_pattern_priority-bounds}
use vim_clap.CodeTools.Language.{is_comment}
use vim_clap.Types.Item.{ClapItem, Extractors}

pub data Bonus : Type 0 where
  cwd : Text → Bonus
  language : Text → Bonus
  recent_files : List Text → Bonus
  file_name : Bonus
  no_bonus : Bonus

-- `From<T> for Bonus`
unfoldable pub parse_bonus : Unicode → Text → Bonus
parse_bonus u text =
    if text_eq (u.to_lowercase text) (codes "filename") then file_name else no_bonus

-- The `line_comments` of languages.toml, by the file extension, which crates/code_tools reads.
pub record CodeTools : Type 0 where
  pub line_comments : Text → Option (List Text)

-- `score / d`, or `score / d as Score`, panics where the divisor is 0, so that it asks for one above 0. A length
-- below 2 GiB stays so as an i32.
abbrev pub div_score : Score → (d : ℕ) → 0 < d → Score
div_score score d h = score /ℤ as_score d

-- A priority is between 3 and 10. The first clause is `None`.
abbrev pub by_priority :
    Score → (priority? : Option ℕ) → ((n : ℕ) → priority? ≡ some n → (3 ≤ n) × (n ≤ 10)) → Score
by_priority base_score none between = pos 0
by_priority base_score (some priority) between =
    let bounds = between priority refl in div_score base_score priority (omega (arith, bounds.0))

-- The first clause is the guard `is_empty`.
abbrev pub by_name : Score → Text → ℕ → Score
by_name score [] hits = pos 0
by_name score (c ∷ cs) hits =
    div_score (wrap_i32 (score *ℤ as_score hits)) (byte_len (c ∷ cs)) (byte_len-pos c cs)

unfoldable pub cwd_bonus : Text → Text → Score → Score
unfolding starts_with ◌/ℤ◌ as_score
cwd_bonus abs_path bonus_text base_score =
    if starts_with bonus_text abs_path then div_score base_score 2 (omega arith) else pos 0

unfoldable pub recent_files_bonus : List Text → Text → Score → Score
unfolding contains ◌/ℤ◌ as_score
recent_files_bonus files bonus_text base_score =
    if any (λ s. contains s bonus_text) files then div_score base_score 3 (omega arith) else pos 0

unfoldable pub language_bonus : CodeTools → Text → Text → Score → Score
unfolding trim_start ◌/ℤ◌ neg_score as_score calculate_pattern_priority is_comment
language_bonus tools ext bonus_text base_score =
    let trimmed = trim_start bonus_text in
    if is_comment tools.line_comments trimmed ext
    then neg_score (div_score base_score 5 (omega arith))
    else by_priority base_score (calculate_pattern_priority trimmed ext)
        (calculate_pattern_priority-bounds trimmed ext)

-- `score * hits as Score / file_name.len() as Score`
unfoldable pub file_name_bonus : Extractors → Text → Score → List ℕ → Score
unfolding ◌*ℤ◌ ◌/ℤ◌ wrap_i32 as_score byte_len
file_name_bonus ex file_path score indices = elim (ex.extract_file_name file_path) [
  | none ↦ pos 0
  | some (name, idx) ↦ by_name score name (length (filter (λ x. leb idx x) indices))
]

module _ (ex : Extractors) (tools : CodeTools) where
  unfoldable pub text_bonus_score : Bonus → Text → Score → List ℕ → Score
  unfolding cwd_bonus recent_files_bonus language_bonus file_name_bonus
  text_bonus_score (cwd abs_path) bonus_text score indices = cwd_bonus abs_path bonus_text score
  text_bonus_score (language ext) bonus_text score indices =
      language_bonus tools ext bonus_text score
  text_bonus_score (recent_files files) bonus_text score indices =
      recent_files_bonus files bonus_text score
  text_bonus_score file_name bonus_text score indices = file_name_bonus ex bonus_text score indices
  text_bonus_score no_bonus bonus_text score indices = pos 0

  unfoldable pub item_bonus_score : Bonus → ClapItem → Score → List ℕ → Score
  unfolding text_bonus_score byte_len
  item_bonus_score b item score indices =
      if ltb 1024 (byte_len item.raw_text)
      then pos 0
      else text_bonus_score b item.bonus_text score indices

  -- `BonusMatcher`: the sums.
  unfoldable pub calc_item_bonus : List Bonus → ClapItem → Score → List ℕ → Score
  unfolding item_bonus_score add_score
  calc_item_bonus [] item score indices = pos 0
  calc_item_bonus (b ∷ bs) item score indices =
      add_score (item_bonus_score b item score indices) (calc_item_bonus bs item score indices)

  unfoldable pub calc_text_bonus : List Bonus → Text → Score → List ℕ → Score
  unfolding text_bonus_score add_score
  calc_text_bonus [] bonus_text score indices = pos 0
  calc_text_bonus (b ∷ bs) bonus_text score indices =
      add_score (text_bonus_score b bonus_text score indices)
        (calc_text_bonus bs bonus_text score indices)

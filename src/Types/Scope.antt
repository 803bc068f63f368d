-- ===== src/Types/Scope.antt =====
-- What a match looks at: `CaseMatching` of crates/types/src/lib.rs, `MatchScope` and `FuzzyText` of
-- crates/types/src/source_item.rs.
use vim_clap.Common.{ℕ, Bool, true, false, any, if◌then◌else◌}
use vim_clap.Text.{Text, Unicode, codes, text_eq}

pub data CaseMatching : Type 0 where
  ignore respect smart : CaseMatching

-- `From<T> for CaseMatching`
unfoldable pub parse_case_matching : Unicode → Text → CaseMatching
parse_case_matching u text =
    let t = u.to_lowercase text in
    if text_eq t (codes "ignore")
    then ignore
    else if text_eq t (codes "respect")
    then respect
    else smart

unfoldable pub is_case_sensitive : Unicode → CaseMatching → Text → Bool
is_case_sensitive u ignore query = false
is_case_sensitive u respect query = true
is_case_sensitive u smart query = any u.is_uppercase query

pub data MatchScope : Type 0 where
  full tag_name file_name grep_line : MatchScope

-- `From<T> for MatchScope`
unfoldable pub parse_match_scope : Unicode → Text → MatchScope
parse_match_scope u text =
    let t = u.to_lowercase text in
    if text_eq t (codes "full")
    then full
    else if text_eq t (codes "tagname")
    then tag_name
    else if text_eq t (codes "filename")
    then file_name
    else if text_eq t (codes "grepline")
    then grep_line
    else full

pub record FuzzyText : Type 0 where
  pub text : Text
  pub matching_start : ℕ

abbrev pub new_fuzzy_text : Text → ℕ → FuzzyText
new_fuzzy_text text matching_start = record { text = text; matching_start = matching_start }

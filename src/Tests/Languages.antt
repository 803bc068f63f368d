-- ===== src/Tests/Languages.antt =====
-- Keywords and file extensions.
use vim_clap.Common.{◌≡◌, refl, some}
use vim_clap.Text.{codes}
use vim_clap.CodeTools.Analyzer.{calculate_pattern_priority}

of_a_function : calculate_pattern_priority (codes "12 pub fn main") (codes "rs") ≡ some 7
unfolding calculate_pattern_priority
of_a_function = refl

-- ===== src/Filter/Items/Agree.antt =====
-- The parallel run on a list of items against `par_filter` on that list.
use mathlib.Core.Option
use vim_clap.Common.{ℕ, List, map}
use vim_clap.Types.Query.{Query}
use vim_clap.Types.Item.{ClapItem}
use vim_clap.Matcher.{Matcher}

-- The items without their times.
abbrev pub untimed : List (ℕ × ClapItem) → List ClapItem
untimed = map (λ (now, item). item)

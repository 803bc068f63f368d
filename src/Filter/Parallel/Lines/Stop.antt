-- ===== src/Filter/Parallel/Lines/Stop.antt =====
-- `par_dyn_run_inprocess` of crates/filter/src/parallel_worker.rs: the stop signal.
use vim_clap.Common.{ℕ, Bool, Option, none, some, List, [], ◌∷◌, if◌then◌else◌, any}
use mathlib.Core.Option
use vim_clap.Common.Options.{◌>>=◌}
use vim_clap.Text.{Text}
use vim_clap.Types.Query.{Query}
use vim_clap.Types.Item.{ClapItem}
use vim_clap.Matcher.{Crates, Matcher}
use vim_clap.Filter.Parallel.{Printer, Progress}
use vim_clap.Filter.Parallel.Lines.{Counted, finish_counted}

abbrev pub Signalled : Type 0
Signalled = List (Bool × ℕ × Text)

-- The lines before the first that finds the stop signal set.
abbrev pub before_stop : Signalled → List (ℕ × Text)
before_stop [] = []
before_stop ((stop, now, line) ∷ others) =
    let rest = (now, line) ∷ before_stop others in if stop then [] else rest

abbrev pub is_stopped : Signalled → Bool
is_stopped = any (λ l. l.0)

module _ {F Regex : Type 0} (k : Crates F Regex) (printer : Printer ClapItem) where
  abbrev InProcess : Type 0
  InProcess = Counted k printer × Option Progress

  -- The end of a run that was stopped, and of one that was not.
  abbrev pub unshown : Counted k printer → Option InProcess
  unshown c = some (c, none)

  abbrev pub as_shown : Counted k printer × Progress → Option InProcess
  as_shown (c, p) = some (c, some p)

  abbrev pub with_end : Counted k printer → Option (Counted k printer × Progress)
  with_end c = finish_counted k printer c >>= λ p. some (c, p)

  abbrev at_end : Counted k printer × Bool → Option InProcess
  at_end (c, stopped) =
      if stopped
      then some (c, none)
      else Option.map (λ shown. (c, some shown)) (finish_counted k printer c)

-- ===== src/Common/Outcomes.antt =====
-- A handler that changes a state and may fail: the state, and whether it succeeded. What was changed before an
-- error stays.
use mathlib.Core.Bool.{Bool, true, false}
use vim_clap.Common.Tests.{if◌then◌else◌}

module _ {ℓ} {A : Type ℓ} where
  abbrev pub and_then : A × Bool → (A → A × Bool) → A × Bool
  and_then (g, true) f = f g
  and_then (g, false) f = (g, false)

module _ {ℓ ℓ'} {A : Type ℓ} where
  -- What both steps keep holds at the end.
  pub and_then-keeps :
      (P : A → Type ℓ') (r : A × Bool) (f : A → A × Bool)
      → P r.0
      → ((g : A) → P g → P (f g).0)
      → P (and_then r f).0
  and_then-keeps P (g, true) f h k = k g h
  and_then-keeps P (g, false) f h k = h

  pub chosen :
      (P : A → Type ℓ') (b : Bool) (r r' : A × Bool) → P r.0 → P r'.0 → P (if b then r else r').0
  chosen P true r r' h k = h
  chosen P false r r' h k = k

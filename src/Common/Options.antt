-- ===== src/Common/Options.antt =====
-- The chains of `?` on options.
use mathlib.Core.Path.{◌≡◌, refl, sym, ap}
use mathlib.Core.Bool.{Bool, true, false, not, ◌&&◌}
use mathlib.Core.Option.{Option, none, some}
use mathlib.Core.Option
use vim_clap.Common.Tests.{if◌then◌else◌}
use vim_clap.Common.{arith}

infixl 5 ◌>>=◌
abbrev pub ◌>>=◌ {ℓ κ} : {A : Type ℓ} {B : Type κ} → Option A → (A → Option B) → Option B
none >>= f = none
some a >>= f = f a

abbrev pub is_some {ℓ} : {A : Type ℓ} → Option A → Bool
is_some none = false
is_some (some a) = true

-- A chain gives something exactly if each of its parts does.
pub is_some-bind {ℓ κ} :
    {A : Type ℓ} {B : Type κ} (o : Option A) (f : A → Option B) {b c : Bool}
    → is_some o ≡ b
    → ((a : A) → is_some (f a) ≡ c)
    → is_some (o >>= f) ≡ (b && c)
is_some-bind none f {b} {c} h k = ap (λ x. x && c) h
is_some-bind (some a) f h k = rw (sym h) (k a)

pub is_some-map {ℓ κ} :
    {A : Type ℓ} {B : Type κ} (f : A → B) (o : Option A) → is_some (Option.map f o) ≡ is_some o
is_some-map f none = refl
is_some-map f (some a) = refl

pub is_some-bind_some {ℓ κ} :
    {A : Type ℓ} {B : Type κ} (o : Option A) (f : A → B)
    → is_some (o >>= λ a. some (f a)) ≡ is_some o
is_some-bind_some none f = refl
is_some-bind_some (some a) f = refl

-- An early return.
pub is_some-guard {ℓ} :
    {A : Type ℓ} (b : Bool) (o : Option A) {c : Bool}
    → (b ≡ false → is_some o ≡ c)
    → is_some (if b then none else o) ≡ (not b && c)
is_some-guard true o h = refl
is_some-guard false o h = h refl

-- What a chain that gives something went through.
pub some-bind {ℓ κ} :
    {A : Type ℓ} {B : Type κ} (o : Option A) (f : A → Option B) {b : B}
    → (o >>= f) ≡ some b
    → (a : A) × (o ≡ some a) × (f a ≡ some b)
some-bind none f h = ground arith
some-bind (some a) f h = (a, refl, h)

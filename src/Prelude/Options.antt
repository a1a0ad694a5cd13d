-- ===== src/Prelude/Options.antt =====
-- The `do` blocks of computations where `none` is a panic.
use systems_study.Prelude.{Option, none, some}

infixl 5 ◌>>=◌
abbrev pub ◌>>=◌ : {A B : Type 0} → Option A → (A → Option B) → Option B
none >>= f = none
some a >>= f = f a

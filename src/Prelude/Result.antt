-- ===== src/Prelude/Result.antt =====
-- Rust's `Result`, and its `?` in a method that borrows its state mutably: what was done to the
-- state before an early return stays done.

use mathlib.Core.Path.{◌≡◌, refl}
use mathlib.Core.Logic.{◌⊎◌, inl, inr}

pub data Result {ℓ κ} (E : Type κ) (A : Type ℓ) : Type (ℓ ⊔ κ) where
  ok : A → Result E A
  err : E → Result E A

pub Result-cases {ℓ κ} :
    {E : Type κ} {A : Type ℓ} (r : Result E A) → ((a : A) × (r ≡ ok a)) ⊎ ((e : E) × (r ≡ err e))
Result-cases (ok a) = inl (a, refl)
Result-cases (err e) = inr (e, refl)

-- `?` on a value.
abbrev pub and_then : {E A B : Type 0} → Result E A → (A → Result E B) → Result E B
and_then (ok a) f = f a
and_then (err e) f = err e

-- A method on a state `S`.
abbrev pub Method : Type 0 → Type 0 → Type 0 → Type 0
Method S E A = S → Result E A × S

abbrev pub bind_result : {S E A B : Type 0} → Result E A × S → (A → Method S E B) → Result E B × S
bind_result (ok a, s) f = f a s
bind_result (err e, s) f = (err e, s)

infixl 5 ◌>>=◌ ◌>>◌
abbrev pub ◌>>=◌ : {S E A B : Type 0} → Method S E A → (A → Method S E B) → Method S E B
◌>>=◌ m f s = bind_result (m s) f

abbrev pub ◌>>◌ : {S E B : Type 0} → Method S E (Unit {0}) → Method S E B → Method S E B
m >> k = m >>= λ _. k

abbrev pub pure : {S E A : Type 0} → A → Method S E A
pure a s = (ok a, s)

abbrev pub fail : {S E A : Type 0} → E → Method S E A
fail e s = (err e, s)

abbrev pub state : {S E : Type 0} → Method S E S
state s = (ok s, s)

abbrev pub modify : {S E : Type 0} → (S → S) → Method S E (Unit {0})
modify f s = (ok tt, f s)

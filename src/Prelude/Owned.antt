-- ===== src/Prelude/Owned.antt =====
-- What a process holds, in a log: Rust drops the owners in scope when a function returns early, the
-- last one first. The kernel's state is a parameter.
pub mod Tidy
use systems_study.Prelude.{ℕ, Bool, true, false, List, [], ◌∷◌, ◌++◌}
use systems_study.Prelude.Result.{Result, ok, err, Method, bind_result, pure, fail, modify}

-- A descriptor, or a mapping by its address and length.
pub data Resource : Type 0 where
  fd : ℕ → Resource
  mapped : ℕ → ℕ → Resource

pub data Event : Type 0 where
  acquired released : Resource → Event

-- What a readable and writable mapping shows: fresh private memory, or a descriptor from offset 0.
pub data Backing : Type 0 where
  private_anonymous : Backing
  shared : ℕ → Backing

pub record Process (K : Type 0) : Type 0 where
  pub kernel : K
  pub log : List Event

-- `E` is the type of errors.
abbrev pub Owner : Type 0 → Type 0 → Type 0 → Type 0
Owner K E A = Method (Process K) E A

module _ {K E : Type 0} where
  -- A call of the kernel, and what its failure becomes.
  abbrev pub answered :
      {A F : Type 0} → (F → E) → Process K → Result F A × K → Result E A × Process K
  answered os p (ok a, k) = (ok a, record p { kernel = k })
  answered os p (err e, k) = (err (os e), record p { kernel = k })

  abbrev pub call_with : {A F : Type 0} → (F → E) → (K → Result F A × K) → Owner K E A
  call_with os f p = answered os p (f p.kernel)

  -- A call that, where it succeeds, gives the process a resource: from then on it is held, whether a
  -- local owns it or not.
  abbrev pub opened :
      {A F : Type 0}
      → (F → E)
      → (A → Resource)
      → Process K
      → Result F A × K
      → Result E A × Process K
  opened os held p (ok a, k) =
      (ok a, record p { kernel = k; log = p.log ++ acquired (held a) ∷ [] })
  opened os held p (err e, k) = (err (os e), record p { kernel = k })

  abbrev pub open_with :
      {A F : Type 0} → (F → E) → (A → Resource) → (K → Result F A × K) → Owner K E A
  open_with os held f p = opened os held p (f p.kernel)

  -- A local that owns `r`: an early return drops it.
  abbrev pub dropping : {A : Type 0} → Resource → Result E A × Process K → Result E A × Process K
  dropping r (ok a, p) = (ok a, p)
  dropping r (err e, p) = (err e, record p { log = p.log ++ released r ∷ [] })

  -- From here on a local owns `r`.
  abbrev pub keeping : {A : Type 0} → Resource → Owner K E A → Owner K E A
  keeping r m p = dropping r (m p)

  abbrev pub ignore : {A : Type 0} → Owner K E A → Owner K E (Unit {0})
  ignore m p = (ok tt, (m p).1)

  abbrev pub require : Bool → E → Owner K E (Unit {0})
  require true e = pure tt
  require false e = fail e

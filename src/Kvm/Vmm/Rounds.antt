-- ===== src/Kvm/Vmm/Rounds.antt =====
-- The loop of `run` in vmm.rs is its entries, one after the other.
use systems_study.Prelude.{
  ℕ, zero, suc, ◌<◌, ◌≡◌, refl, arith, ◌∙◌, sym, ◌↔◌, ◌⊎◌, inl, inr, Option, none, some,
}
use systems_study.Prelude.Result.{Result, ok, err}
use mathlib.Core.Path.{subst}
use systems_study.Kvm.Vmm.Steps.{
  Resumes, Stops, halts, fails, out_of_bounds, no_direction, no_device, no_handler,
}
use systems_study.Kvm.Vmm.Steps.Agree.{round-Told, Resumes-round, Stops-round}
use systems_study.Kvm.Vmm.{Session, Kernel, RunSummary, RunError, round, run_loop}

-- The result is not that the fuel ran out.
abbrev pub Ended : Result RunError (Option RunSummary) → Type 0
Ended (ok none) = ⊥
Ended (ok (some n)) = Unit
Ended (err e) = Unit

module _ {V : Type 0} (kvm_run : Kernel V) where
  -- A round that goes on, one that returns, and one that fails.
  run_loop-next :
      (fuel : ℕ) (s s' : Session V)
      → round kvm_run s ≡ (ok none, s')
      → run_loop kvm_run (suc fuel) s ≡ run_loop kvm_run fuel s'
  unfolding run_loop
  run_loop-next fuel s s' e = rw e refl

  run_loop-stop :
      (fuel : ℕ) (s s' : Session V) (n : RunSummary)
      → round kvm_run s ≡ (ok (some n), s')
      → run_loop kvm_run (suc fuel) s ≡ (ok (some n), s')
  unfolding run_loop
  run_loop-stop fuel s s' n e = rw e refl

  run_loop-fail :
      (fuel : ℕ) (s s' : Session V) (x : RunError)
      → round kvm_run s ≡ (err x, s')
      → run_loop kvm_run (suc fuel) s ≡ (err x, s')
  unfolding run_loop
  run_loop-fail fuel s s' x e = rw e refl

-- What a round does, with its new session.
pub round-cases :
    {V : Type 0} (r : Result RunError (Option RunSummary) × Session V)
    → (r ≡ (ok none, r.1))
      ⊎ (((n : RunSummary) × (r ≡ (ok (some n), r.1))) ⊎ ((x : RunError) × (r ≡ (err x, r.1))))
round-cases (ok none, s) = inl refl
round-cases (ok (some n), s) = inr (inl (n, refl))
round-cases (err x, s) = inr (inr (x, refl))

-- `k` entries lead from one session to another, and the guest is resumed after each.
pub data Goes {V : Type 0} (kvm_run : Kernel V) : ℕ → Session V → Session V → Type 0 where
  here : (s : Session V) → Goes kvm_run 0 s s
  next :
      {k : ℕ} (s t u : Session V)
      → Resumes kvm_run s t
      → Goes kvm_run k t u
      → Goes kvm_run (suc k) s u

Stops-Ended :
    {V : Type 0} {kvm_run : Kernel V} (s : Session V)
    (r : Result RunError (Option RunSummary) × Session V)
    → Stops kvm_run s r
    → Ended r.0
Stops-Ended s _ (halts v p e) = tt
Stops-Ended s _ (fails v p x e ne) = tt
Stops-Ended s _ (out_of_bounds v p e past) = tt
Stops-Ended s _ (no_direction v p e fits out in_) = tt
Stops-Ended s _ (no_device v p e owns) = tt
Stops-Ended s _ (no_handler v p reason e io mmio hlt intr) = tt

loop-zero :
    {V : Type 0} (kvm_run : Kernel V) (s : Session V)
    (r : Result RunError (Option RunSummary) × Session V)
    → Ended r.0
    → run_loop kvm_run 0 s ≡ r
    → ⊥
unfolding run_loop
loop-zero kvm_run s (ok none, t) h e = h
loop-zero kvm_run s (ok (some n), t) h e = cc
loop-zero kvm_run s (err x, t) h e = cc

run_loop-last :
    {V : Type 0} (kvm_run : Kernel V) (fuel : ℕ) (s t : Session V)
    (r : Result RunError (Option RunSummary))
    → Ended r
    → round kvm_run s ≡ (r, t)
    → run_loop kvm_run (suc fuel) s ≡ (r, t)
run_loop-last kvm_run fuel s t (ok none) h e = absurd h
run_loop-last kvm_run fuel s t (ok (some n)) h e = run_loop-stop kvm_run fuel s t n e
run_loop-last kvm_run fuel s t (err x) h e = run_loop-fail kvm_run fuel s t x e

to_rounds :
    {V : Type 0} (kvm_run : Kernel V) (fuel : ℕ) (s : Session V)
    (r : Result RunError (Option RunSummary) × Session V)
    → Ended r.0
    → run_loop kvm_run fuel s ≡ r
    → (k : ℕ) × (k < fuel) × (t : Session V) × Goes kvm_run k s t × Stops kvm_run t r
to_rounds kvm_run zero s r h e = absurd (loop-zero kvm_run s r h e)
to_rounds kvm_run (suc fuel) s r h e = elim (round-Told kvm_run s) [
  | inl (t, go) ↦
      let moved = run_loop-next kvm_run fuel s t (Resumes-round kvm_run s t go) in
      let (k, lt, u, goes, stop) = to_rounds kvm_run fuel t r h (sym moved ∙ e) in
      (suc k, omega arith, u, next s t u go goes, stop)
  | inr (r', stop) ↦
      let ended = Stops-Ended s r' stop in
      let last = run_loop-last kvm_run fuel s r'.1 r'.0 ended (Stops-round kvm_run s r' stop) in
      (0, omega arith, s, here s, subst (Stops kvm_run s) (sym last ∙ e) stop)
]

from_rounds :
    {V : Type 0} (kvm_run : Kernel V) (fuel k : ℕ) (s t : Session V)
    (r : Result RunError (Option RunSummary) × Session V)
    → k < fuel
    → Goes kvm_run k s t
    → Stops kvm_run t r
    → run_loop kvm_run fuel s ≡ r
from_rounds kvm_run zero k s t r lt goes stop = absurd (omega arith)
from_rounds kvm_run (suc fuel) zero s t r lt (here _) stop =
    run_loop-last kvm_run fuel s r.1 r.0 (Stops-Ended s r stop) (Stops-round kvm_run s r stop)
from_rounds kvm_run (suc fuel) (suc k) s t r lt (next _ u _ go goes) stop =
    run_loop-next kvm_run fuel s u (Resumes-round kvm_run s u go)
    ∙ from_rounds kvm_run fuel k u t r (omega arith) goes stop

-- The loop of `run` returns or fails with a result exactly when some number of entries, smaller than
-- the fuel, after each of which the guest is resumed, lead to an entry that stops with that result.
-- An entry resumes the guest if `KVM_RUN` gave `EINTR`, or exited for a signal, a port access whose
-- payload lies in the mapping, or an access in the device's window: it counts the exit, or the
-- interruption, or both, and has the device serve the access. It stops with the summary at a halt, and with the error at any other
-- `errno`, a payload past the mapping, a direction that is none, an address no device has, and an
-- exit that is not handled.
pub run_loop_iff :
    {V : Type 0} (kvm_run : Kernel V) (fuel : ℕ) (s : Session V)
    (r : Result RunError (Option RunSummary) × Session V)
    → (Ended r.0 × (run_loop kvm_run fuel s ≡ r))
      ↔ ((k : ℕ) × (k < fuel) × (t : Session V) × Goes kvm_run k s t × Stops kvm_run t r)
run_loop_iff kvm_run fuel s r = (
  λ h. to_rounds kvm_run fuel s r h.0 h.1,
  λ h. (Stops-Ended h.2 r h.4, from_rounds kvm_run fuel h.0 s h.2 r h.1 h.3 h.4),
)

-- ===== src/Kvm/Vmm/Steps/Agree.antt =====
-- The step relation on the entries of `run` is what the functions for a round compute.
use systems_study.Prelude.{ℕ, ◌+◌, ◌≤◌, ◌<◌, ◌≡◌, refl, arith, inl, inr, ◌⊎◌, Option, none, length}
use native.Mathlib.Decide.{ℕ_discrete, dec_lt}
use systems_study.Prelude.Result.{Result, ok, err}
use systems_study.Kvm.Device.{mmio_base, mmio_len}
use systems_study.Kvm.Vmm.{
  Session, Kernel, RunPage, RunSummary, RunError, eintr, kvm_exit_io, kvm_exit_hlt, kvm_exit_mmio,
  kvm_exit_intr, kvm_exit_io_in, kvm_exit_io_out, handle_io, handle_mmio, transfer, serve_mmio,
  dispatch, after_entry, round,
}
use systems_study.Kvm.Vmm.Steps.{
  payload_end, OwnsMmio, Resumes, Stops, no_entry, interrupted, port_write, port_read, store, load,
  halts, fails, out_of_bounds, no_direction, no_device, no_handler,
}

module _ {V : Type 0} (kvm_run : Kernel V) where
  pub Resumes-round : (s t : Session V) → Resumes kvm_run s t → round kvm_run s ≡ (ok none, t)
  unfolding round after_entry dispatch handle_io handle_mmio transfer serve_mmio
  Resumes-round s _ (no_entry v p e) = rw e refl
  Resumes-round s _ (interrupted v p (e, r)) = rw (e, r) refl
  Resumes-round s _ (port_write v p (e, r) fits d) = rw (e, r, d) (ground (arith, fits))
  Resumes-round s _ (port_read v p (e, r) fits d) = rw (e, r, d) (ground (arith, fits))
  Resumes-round s _ (store v p (e, r) owns w) = rw (e, r) (ground (arith, owns, w))
  Resumes-round s _ (load v p (e, r) owns w) = rw (e, r, w) (ground (arith, owns))

  pub Stops-round :
      (s : Session V) (r : Result RunError (Option RunSummary) × Session V)
      → Stops kvm_run s r
      → round kvm_run s ≡ r
  unfolding round after_entry dispatch handle_io handle_mmio transfer serve_mmio
  Stops-round s _ (halts v p (e, r)) = rw (e, r) refl
  Stops-round s _ (fails v p x e ne) = rw e (ground (arith, ne))
  Stops-round s _ (out_of_bounds v p (e, r) past) = rw (e, r) (ground (arith, past))
  Stops-round s _ (no_direction v p (e, r) fits out in_) =
      rw (e, r) (ground (arith, fits, out, in_))
  Stops-round s _ (no_device v p (e, r) owns) = rw (e, r) (ground (arith, owns))
  Stops-round s _ (no_handler v p reason (e, r) io mmio hlt intr) =
      rw (e, r) (ground (arith, io, mmio, hlt, intr))

  abbrev Told : Session V → Type 0
  Told s =
      ((t : Session V) × Resumes kvm_run s t)
      ⊎ ((r : Result RunError (Option RunSummary) × Session V) × Stops kvm_run s r)

  module _ (s : Session V) (v : V) (p : RunPage) (e : kvm_run s.vcpu s.page ≡ (ok tt, (v, p))) where
    io-Told : p.exit_reason ≡ kvm_exit_io → Told s
    io-Told r = elim (dec_lt (length p.mapping) (payload_end p)) [
      | yes past ↦ inr (_, out_of_bounds v p (e, r) past)
      | no fits ↦
          let inside : payload_end p ≤ length p.mapping = omega (arith, fits) in
          elim (ℕ_discrete p.io.direction kvm_exit_io_out) [
            | yes out ↦ inl (_, port_write v p (e, r) inside out)
            | no not_out ↦ elim (ℕ_discrete p.io.direction kvm_exit_io_in) [
              | yes in_ ↦ inl (_, port_read v p (e, r) inside in_)
              | no not_in ↦ inr (_, no_direction v p (e, r) inside not_out not_in)
            ]
          ]
    ]

    mmio-Told : p.exit_reason ≡ kvm_exit_mmio → Told s
    mmio-Told r =
        let a = p.mmio.phys_addr in
        let cases : OwnsMmio a ⊎ ((a < mmio_base) ⊎ (mmio_base + mmio_len ≤ a)) = omega arith in
        elim cases [
          | inl owns ↦ elim (ℕ_discrete p.mmio.is_write 0) [
            | yes z ↦ inl (_, load v p (e, r) owns z)
            | no w ↦ inl (_, store v p (e, r) owns w)
          ]
          | inr out ↦ inr (_, no_device v p (e, r) (λ owns. omega (arith, owns, out)))
        ]

    exit-Told : Told s
    exit-Told = elim (ℕ_discrete p.exit_reason kvm_exit_io) [
      | yes r ↦ io-Told r
      | no io ↦ elim (ℕ_discrete p.exit_reason kvm_exit_mmio) [
        | yes r ↦ mmio-Told r
        | no mmio ↦ elim (ℕ_discrete p.exit_reason kvm_exit_hlt) [
          | yes r ↦ inr (_, halts v p (e, r))
          | no hlt ↦ elim (ℕ_discrete p.exit_reason kvm_exit_intr) [
            | yes r ↦ inl (_, interrupted v p (e, r))
            | no intr ↦ inr (_, no_handler v p p.exit_reason (e, refl) io mmio hlt intr)
          ]
        ]
      ]
    ]

  entry-Told :
      (s : Session V) (a : Result ℕ (Unit {0}) × (V × RunPage)) → kvm_run s.vcpu s.page ≡ a → Told s
  entry-Told s (ok tt, (v, p)) e = exit-Told s v p e
  entry-Told s (err x, (v, p)) e = elim (ℕ_discrete x eintr) [
    | yes q ↦ inl (_, no_entry v p (rw (← q) e))
    | no ne ↦ inr (_, fails v p x e ne)
  ]

  -- Every entry is one of these.
  pub round-Told :
      (s : Session V)
      → ((t : Session V) × Resumes kvm_run s t)
        ⊎ ((r : Result RunError (Option RunSummary) × Session V) × Stops kvm_run s r)
  round-Told s = entry-Told s (kvm_run s.vcpu s.page) refl

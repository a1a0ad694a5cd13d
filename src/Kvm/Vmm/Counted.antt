-- ===== src/Kvm/Vmm/Counted.antt =====
-- The counters of `run` in vmm.rs while it goes on: what the handlers add to them.
use systems_study.Prelude.{ℕ, suc, ◌+◌, ◌*◌, ◌≤◌, ◌<◌, ◌≡◌, arith, min, take, drop, replicate}
use systems_study.Prelude.Result.{ok}
use systems_study.Prelude.Word.{add64, u64_mod}
use systems_study.Kvm.Device.{Devices}
use systems_study.Kvm.Device.Calls.{
  port_calls, mmio_calls, pio_write-counts, pio_read-counts, mmio_write-counts, mmio_read-counts,
}
use systems_study.Kvm.Vmm.{Session, handle_mmio, handle_io}

-- After `n` entries that went on, from devices `d`.
pub record Counted {V : Type 0} (d : Devices) (n : ℕ) (s : Session V) : Type 0 where
  pub handled : s.summary.io_exits + s.summary.mmio_exits ≤ s.summary.exits
  pub all : s.summary.exits ≤ s.summary.io_exits + s.summary.mmio_exits + s.summary.interrupted
  pub entries : s.summary.io_exits + s.summary.mmio_exits + s.summary.interrupted ≡ n
  pub ports : port_calls s.devices ≡ port_calls d + s.summary.io_exits
  pub mmios : mmio_calls s.devices ≡ mmio_calls d + s.summary.mmio_exits

-- The room that the counters have for `n` entries.
abbrev pub HasRoom : Devices → ℕ → Type 0
HasRoom d n = (port_calls d + n < u64_mod) × (mmio_calls d + n < u64_mod)

-- Where the handlers succeed, each has counted its exit and made one call of a device.
module _ {V : Type 0} (s t : Session V) where
  handle_io-counts :
      suc (port_calls s.devices) < u64_mod
      → suc s.summary.io_exits < u64_mod
      → handle_io s ≡ (ok tt, t)
      → (t.summary ≡ record s.summary { io_exits = suc s.summary.io_exits })
        × (port_calls t.devices ≡ suc (port_calls s.devices))
        × (mmio_calls t.devices ≡ mmio_calls s.devices)
  unfolding handle_io
  handle_io-counts room small e =
      let io = s.page.io in
      let bytes = take (io.size * io.count) (drop io.data_offset s.page.mapping) in
      ground (
        arith,
        pio_write-counts io.port bytes s.devices room,
        pio_read-counts io.port bytes s.devices room,
      )

  handle_mmio-counts :
      suc (mmio_calls s.devices) < u64_mod
      → suc s.summary.mmio_exits < u64_mod
      → handle_mmio s ≡ (ok tt, t)
      → (t.summary ≡ record s.summary { mmio_exits = suc s.summary.mmio_exits })
        × (mmio_calls t.devices ≡ suc (mmio_calls s.devices))
        × (port_calls t.devices ≡ port_calls s.devices)
  unfolding handle_mmio
  handle_mmio-counts room small e =
      let m = s.page.mmio in
      ground (
        arith,
        mmio_write-counts m.phys_addr (take (min m.len 8) m.bytes) s.devices room,
        mmio_read-counts m.phys_addr (replicate (min m.len 8) 0) s.devices room,
      )

-- A session whose counters have room for one exit more.
abbrev pub Ready : {V : Type 0} → Devices → ℕ → Session V → Type 0
Ready d n s = Counted d n s × HasRoom d (suc n) × (suc n < u64_mod)

module _ {V : Type 0} (d : Devices) (n : ℕ) (s : Session V) (h : Ready d n s) where
  -- The session at the start of the dispatch.
  abbrev pub exited : Session V
  exited = record s { summary = record s.summary { exits = add64 s.summary.exits 1 } }

  pub io_goes : (t : Session V) → handle_io exited ≡ (ok tt, t) → Counted d (suc n) t
  io_goes t e =
      let c = h.0 in
      let (sum, calls, others) =
        handle_io-counts exited t (omega (arith, c.handled, c.entries, c.ports, h.1))
          (omega (arith, c.entries, h.2)) e in
      record {
        handled = rw sum (omega (arith, c.handled, c.all, c.entries, h.2));
        all = rw sum (omega (arith, c.handled, c.all, c.entries, h.2));
        entries = rw sum (omega (arith, c.entries));
        ports = rw sum (omega (arith, calls, c.ports));
        mmios = rw sum (omega (arith, others, c.mmios));
      }

  pub mmio_goes : (t : Session V) → handle_mmio exited ≡ (ok tt, t) → Counted d (suc n) t
  mmio_goes t e =
      let c = h.0 in
      let (sum, calls, others) =
        handle_mmio-counts exited t (omega (arith, c.handled, c.entries, c.mmios, h.1))
          (omega (arith, c.entries, h.2)) e in
      record {
        handled = rw sum (omega (arith, c.handled, c.all, c.entries, h.2));
        all = rw sum (omega (arith, c.handled, c.all, c.entries, h.2));
        entries = rw sum (omega (arith, c.entries));
        ports = rw sum (omega (arith, others, c.ports));
        mmios = rw sum (omega (arith, calls, c.mmios));
      }

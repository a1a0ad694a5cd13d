-- ===== src/Kvm/Device/History.antt =====
-- The devices of device.rs as a function of the accesses that the guest has made.
use systems_study.Prelude.{
  inl, inr, ◌⊎◌, ℕ, suc, sym, ◌≢◌, length-replicate, ◌+◌, ◌%◌, ◌<◌, ◌≡◌, refl, arith, ◌∙◌, ap, Bool,
  true, false, ◌==◌, not, ◌&&◌, ◌||◌, if◌then◌else◌, List, [], ◌∷◌, ◌++◌, append_assoc, length,
  replicate,
}
use mathlib.Core.List.{append-nil}
use systems_study.Prelude.Word.{add64, u64_mod}
use systems_study.Kvm.Device.{
  Devices, serial_port, bench_port, mmio_base, sub64, pio_write, pio_read, mmio_write, mmio_read,
  owns_mmio,
}

-- One access of the guest: the address and the bytes it writes or the buffer to fill.
pub data Access : Type 0 where
  out_port : ℕ → List ℕ → Access
  in_port : ℕ → List ℕ → Access
  mmio_store : ℕ → List ℕ → Access
  mmio_load : ℕ → List ℕ → Access

-- The call that the run loop makes for an access.
abbrev pub serve : Access → Devices → Devices
serve (out_port port bytes) d = pio_write port bytes d
serve (in_port port bytes) d = (pio_read port bytes d).1
serve (mmio_store addr bytes) d = mmio_write addr bytes d
serve (mmio_load addr bytes) d = (mmio_read addr bytes d).1

pub serve_all : List Access → Devices → Devices
serve_all [] d = d
serve_all (a ∷ past) d = serve_all past (serve a d)

-- What a history printed, left in the register, and how often it was not understood.
abbrev pub printed : List Access → List ℕ
printed [] = []
printed (out_port port bytes ∷ past) =
    if port == serial_port then bytes ++ printed past else printed past
printed (in_port port bytes ∷ past) = printed past
printed (mmio_store addr bytes ∷ past) = printed past
printed (mmio_load addr bytes ∷ past) = printed past

abbrev first_or : List ℕ → ℕ → ℕ
first_or [] b = b
first_or (x ∷ xs) b = x

abbrev pub latched : List Access → ℕ → ℕ
latched [] b = b
latched (mmio_store addr bytes ∷ past) b =
    latched past (if addr == mmio_base then first_or bytes b else b)
latched (out_port port bytes ∷ past) b = latched past b
latched (in_port port bytes ∷ past) b = latched past b
latched (mmio_load addr bytes ∷ past) b = latched past b

abbrev is_empty : List ℕ → Bool
is_empty [] = true
is_empty (x ∷ xs) = false

-- The accesses that the model of the machine does not describe.
abbrev pub is_unknown : Access → Bool
is_unknown (out_port port bytes) = not (port == serial_port) && not (port == bench_port)
is_unknown (in_port port bytes) = true
is_unknown (mmio_store addr bytes) = not (addr == mmio_base) || is_empty bytes
is_unknown (mmio_load addr bytes) = not (addr == mmio_base) || is_empty bytes

abbrev pub unknown : List Access → ℕ
unknown [] = 0
unknown (a ∷ past) = (if is_unknown a then 1 else 0) + unknown past

-- Addresses are 64-bit.
abbrev pub address : Access → ℕ
address (out_port port bytes) = 0
address (in_port port bytes) = 0
address (mmio_store addr bytes) = addr
address (mmio_load addr bytes) = addr

abbrev pub Addressed : List Access → Type 0
Addressed [] = Unit
Addressed (a ∷ past) = (address a < u64_mod) × Addressed past

-- The devices are what the history says.
pub record Told (past : List Access) (d d' : Devices) : Type 0 where
  pub serial : d'.serial_out ≡ d.serial_out ++ printed past
  pub register : d'.latch ≡ latched past d.latch
  pub refused : d'.unhandled ≡ (d.unhandled + unknown past) % u64_mod

at_base : (addr : ℕ) → addr < u64_mod → (sub64 addr mmio_base == 0) ≡ (addr == mmio_base)
at_base addr small = ground arith

-- One access, from the start.
serve_lem :
    (a : Access) (d : Devices)
    → address a < u64_mod
    → ((serve a d).serial_out ≡ d.serial_out ++ printed (a ∷ []))
      × ((serve a d).latch ≡ latched (a ∷ []) d.latch)
      × ((serve a d).unhandled ≡ (if is_unknown a then add64 d.unhandled 1 else d.unhandled))
unfolding pio_write pio_read mmio_write mmio_read
serve_lem (out_port port bytes) d small = ground (arith, append-nil d.serial_out, append-nil bytes)
serve_lem (in_port port bytes) d small = ground (arith, append-nil d.serial_out)
serve_lem (mmio_store addr []) d small = ground (arith, at_base addr small, append-nil d.serial_out)
serve_lem (mmio_store addr (b ∷ bytes)) d small =
    ground (arith, at_base addr small, append-nil d.serial_out)
serve_lem (mmio_load addr []) d small = ground (arith, at_base addr small, append-nil d.serial_out)
serve_lem (mmio_load addr (b ∷ bytes)) d small =
    ground (arith, at_base addr small, append-nil d.serial_out)

printed-cons :
    (a : Access) (past : List Access) → printed (a ∷ past) ≡ printed (a ∷ []) ++ printed past
printed-cons (out_port port bytes) past = ground (arith, append-nil bytes)
printed-cons (in_port port bytes) past = refl
printed-cons (mmio_store addr bytes) past = refl
printed-cons (mmio_load addr bytes) past = refl

latched-cons :
    (a : Access) (past : List Access) (b : ℕ)
    → latched (a ∷ past) b ≡ latched past (latched (a ∷ []) b)
latched-cons (out_port port bytes) past b = refl
latched-cons (in_port port bytes) past b = refl
latched-cons (mmio_store addr bytes) past b = refl
latched-cons (mmio_load addr bytes) past b = refl

-- After any sequence of accesses with 64-bit addresses the serial output has grown by exactly the
-- bytes written to the serial port, in order; the register holds the first byte of the last
-- non-empty store to the device's base address, or what it held before; and `unhandled` has grown,
-- modulo 2^64, by the number of accesses that the machine does not describe.
pub serve_all_lem :
    (past : List Access) (d : Devices)
    → Addressed past
    → d.unhandled < u64_mod
    → Told past d (serve_all past d)
unfolding serve_all
serve_all_lem [] d h small = record {
  serial = sym (append-nil d.serial_out);
  register = refl;
  refused = omega arith;
}
serve_all_lem (a ∷ past) d h small =
    let (out, reg, bad) = serve_lem a d h.0 in
    let t = serve_all_lem past (serve a d) h.1 (ground arith) in
    record {
      serial =
          t.serial
          ∙ (ap (λ s. s ++ printed past) out
              ∙ (append_assoc d.serial_out (printed (a ∷ [])) (printed past)
                  ∙ ap (λ s. d.serial_out ++ s) (sym (printed-cons a past))));
      register = t.register ∙ (ap (latched past) reg ∙ sym (latched-cons a past d.latch));
      refused = let r = t.refused in ground (arith, r, bad);
    }

-- What the window of the device reads into a non-empty buffer: at its base, the byte in the register
-- and zeros, and nothing is refused; at every other address, all ones, and the access is counted as
-- refused. The buffer keeps its length and the register its byte.
pub reads_lem :
    (addr : ℕ) (b : ℕ) (bytes : List ℕ) (d : Devices)
    → owns_mmio addr ≡ true
    → d.unhandled < u64_mod
    → let (filled, d') = mmio_read addr (b ∷ bytes) d in
      (((addr ≡ mmio_base)
          × (filled ≡ d.latch ∷ replicate (length bytes) 0)
          × (d'.unhandled ≡ d.unhandled))
        ⊎ ((addr ≢ mmio_base)
            × (filled ≡ replicate (suc (length bytes)) 0xff)
            × (d'.unhandled ≡ add64 d.unhandled 1)))
      × (length filled ≡ suc (length bytes))
      × (d'.latch ≡ d.latch)
unfolding mmio_read
reads_lem addr b bytes d owns small =
    let zeros = length-replicate {A = ℕ} (length bytes) 0 in
    let ones = length-replicate {A = ℕ} (length bytes) 0xff in
    let cases : (addr ≡ mmio_base) ⊎ (addr ≢ mmio_base) = omega arith in
    (
      elim cases [
        | inl e ↦ inl (e, ground (arith, zeros), ground arith)
        | inr ne ↦ inr (ne, ground (arith, ones), ground arith)
      ],
      ground (arith, zeros, ones),
      ground arith,
    )

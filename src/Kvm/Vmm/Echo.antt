-- ===== src/Kvm/Vmm/Echo.antt =====
-- A guest that stores to the device of one register and loads from it: `run` of vmm.rs carries the
-- byte through the communication page.
use systems_study.Prelude.{
  ℕ, zero, suc, ◌+◌, ◌-◌, ◌<◌, ◌≡◌, refl, arith, ◌∙◌, ap, min, List, ◌∷◌, ◌++◌, take, replicate,
  length-replicate,
}
use systems_study.Prelude.Result.{ok}
use systems_study.Kvm.Device.{mmio_base}
use systems_study.Kvm.Device.Calls.{store_at_base, load_at_base}
use systems_study.Kvm.Vmm.{Session, KvmRunMmio, handle_mmio}

-- The session with another exit reported on its page.
abbrev pub reported : {V : Type 0} → KvmRunMmio → Session V → Session V
reported m s = record s { page = record s.page { mmio = m } }

abbrev pub store_exit : ℕ → List ℕ → ℕ → KvmRunMmio
store_exit b bytes len = record {
  phys_addr = mmio_base;
  bytes = b ∷ bytes;
  len = suc len;
  is_write = 1;
}

abbrev pub load_exit : List ℕ → ℕ → KvmRunMmio
load_exit bytes len = record { phys_addr = mmio_base; bytes = bytes; len = suc len; is_write = 0 }

-- The length that the loop takes of an exit of at least one byte.
cut : (len : ℕ) → (k : ℕ) × (k < 8) × (min (suc len) 8 ≡ suc k)
cut len = (min (suc len) 8 - 1, omega arith, omega arith)

replicate-append : (n k a : ℕ) → replicate n a ++ replicate k a ≡ replicate (n + k) a
replicate-append zero k a = ap (λ i. replicate i a) (omega arith)
replicate-append (suc n) k a =
    let e : suc n + k ≡ suc (n + k) = omega arith in
    rw e (ap (λ rest. a ∷ rest) (replicate-append n k a))

store_latches :
    {V : Type 0} (s : Session V) (b : ℕ) (bytes : List ℕ) (len : ℕ)
    → ((handle_mmio (reported (store_exit b bytes len) s)).0 ≡ ok tt)
      × ((handle_mmio (reported (store_exit b bytes len) s)).1.devices.latch ≡ b)
      × ((handle_mmio (reported (store_exit b bytes len) s)).1.devices.unhandled
          ≡ s.devices.unhandled)
unfolding handle_mmio
store_latches s b bytes len =
    let (k, small, e) = cut len in
    let r = store_at_base b (take k bytes) s.devices in rw e (refl, r.0, r.1)

load_returns :
    {V : Type 0} (s : Session V) (bytes : List ℕ) (len : ℕ)
    → ((handle_mmio (reported (load_exit bytes len) s)).0 ≡ ok tt)
      × ((handle_mmio (reported (load_exit bytes len) s)).1.page.mmio.bytes
          ≡ s.devices.latch ∷ replicate 7 0)
      × ((handle_mmio (reported (load_exit bytes len) s)).1.devices.unhandled ≡ s.devices.unhandled)
unfolding handle_mmio
load_returns s bytes len =
    let (k, small, e) = cut len in
    let r = load_at_base 0 (replicate k 0) s.devices in
    let n = length-replicate {A = ℕ} k 0 in
    let whole : k + (8 - suc k) ≡ 7 = omega arith in
    let padded : replicate k 0 ++ replicate (8 - suc k) 0 ≡ replicate 7 0 =
      replicate-append k (8 - suc k) 0 ∙ ap (λ i. replicate i 0) whole in
    rw e (refl, rw (r.0, n) (ap (λ rest. s.devices.latch ∷ rest) padded), r.1)

-- A guest that stores bytes to the device's base address and, whatever it has done in between that
-- made no exit, loads from there, finds the first byte that it stored, and zeros after it, in the
-- 8 bytes of the communication page. Both exits are handled without an error, for every length that
-- the kernel reports, and no access is counted as refused.
pub store_then_load :
    {V : Type 0} (s : Session V) (b : ℕ) (bytes page_bytes : List ℕ) (len load_len : ℕ) (v : V)
    → let stored = handle_mmio (reported (store_exit b bytes len) s) in
      let resumed = record stored.1 { vcpu = v } in
      let loaded = handle_mmio (reported (load_exit page_bytes load_len) resumed) in
      (stored.0 ≡ ok tt)
      × (loaded.0 ≡ ok tt)
      × (loaded.1.page.mmio.bytes ≡ b ∷ replicate 7 0)
      × (loaded.1.devices.unhandled ≡ s.devices.unhandled)
store_then_load s b bytes page_bytes len load_len v =
    let first = store_latches s b bytes len in
    let resumed = record (handle_mmio (reported (store_exit b bytes len) s)).1 { vcpu = v } in
    let second = load_returns resumed page_bytes load_len in
    (first.0, second.0, second.1 ∙ ap (λ x. x ∷ replicate 7 0) first.1, second.2 ∙ first.2)

-- ===== src/Virtio/Mem.antt =====
-- rung-02-virtio/toy-virtq-raw/src/mem.rs: the region that driver and device share. `usize` has 64
-- bits. A write returns the new region; a refused write leaves the old one.
pub mod Laws
pub mod Access
pub mod RoundTrip
mod Tests
use systems_study.Prelude.{
  ℕ, zero, suc, ◌+◌, Bool, ltb, if◌then◌else◌, Option, none, some, List, [], length, take, drop,
  replicate,
}
use systems_study.Prelude.Result.{Result, ok, err, and_then}
use systems_study.Prelude.Word.{checked_add64, to_le_bytes, from_le_bytes}
use systems_study.Prelude.{◌∷◌, get_or}

-- A guest physical address, a `u64`.
abbrev pub GuestAddr : Type 0
GuestAddr = ℕ

abbrev pub checked_add : GuestAddr → ℕ → Option GuestAddr
checked_add addr n = checked_add64 addr n

pub data MemError : Type 0 where
  out_of_bounds : ℕ → ℕ → ℕ → MemError

-- The bytes of the region.
pub record SharedMem : Type 0 where
  pub buf : List ℕ

pub zeroed : ℕ → SharedMem
zeroed n = record { buf = replicate n 0 }

abbrev pub len : SharedMem → ℕ
len m = length m.buf

abbrev pub is_empty : SharedMem → Bool
is_empty m = ltb (len m) 1

-- `Option::ok_or`.
abbrev pub ok_or {ℓ} : {E A : Type ℓ} → Option A → E → Result E A
ok_or (some a) e = ok a
ok_or none e = err e

-- The one bounds check: the ends of the range of bytes that the access covers.
pub range : SharedMem → GuestAddr → ℕ → Result MemError (ℕ × ℕ)
range m addr n =
    and_then (ok_or (checked_add addr n) (out_of_bounds addr n (len m)))
      λ end. if ltb (len m) end then err (out_of_bounds addr n (len m)) else ok (addr, end)

-- `buf[start..start + n]`, and `copy_from_slice` into that range.
unfoldable pub slice : ℕ → ℕ → List ℕ → List ℕ
slice start n buf = take n (drop start buf)

-- The first bytes of `buf` become `bytes`.
pub overwrite : List ℕ → List ℕ → List ℕ
overwrite [] buf = buf
overwrite (b ∷ bytes) [] = []
overwrite (b ∷ bytes) (x ∷ buf) = b ∷ overwrite bytes buf

pub splice : ℕ → List ℕ → List ℕ → List ℕ
unfolding overwrite
splice zero bytes buf = overwrite bytes buf
splice (suc start) bytes [] = []
splice (suc start) bytes (x ∷ buf) = x ∷ splice start bytes buf

pub read_slice : SharedMem → GuestAddr → ℕ → Result MemError (List ℕ)
unfolding range slice
read_slice m addr n = and_then (range m addr n) λ r. ok (slice r.0 n m.buf)

pub write_slice : SharedMem → GuestAddr → List ℕ → Result MemError SharedMem
unfolding range splice
write_slice m addr bytes =
    and_then (range m addr (length bytes)) λ r. ok (record { buf = splice r.0 bytes m.buf })

pub read_u16 : SharedMem → GuestAddr → Result MemError ℕ
unfolding range from_le_bytes
read_u16 m addr =
    and_then (range m addr 2)
      λ r. ok (from_le_bytes (get_or m.buf r.0 0 ∷ get_or m.buf (r.0 + 1) 0 ∷ []))

pub read_u32 : SharedMem → GuestAddr → Result MemError ℕ
unfolding range slice from_le_bytes
read_u32 m addr = and_then (range m addr 4) λ r. ok (from_le_bytes (slice r.0 4 m.buf))

pub read_u64 : SharedMem → GuestAddr → Result MemError ℕ
unfolding range slice from_le_bytes
read_u64 m addr = and_then (range m addr 8) λ r. ok (from_le_bytes (slice r.0 8 m.buf))

pub write_u16 : SharedMem → GuestAddr → ℕ → Result MemError SharedMem
unfolding write_slice to_le_bytes
write_u16 m addr v = write_slice m addr (to_le_bytes 2 v)

pub write_u32 : SharedMem → GuestAddr → ℕ → Result MemError SharedMem
unfolding write_slice to_le_bytes
write_u32 m addr v = write_slice m addr (to_le_bytes 4 v)

-- `mem.write_slice(at, &v.to_le_bytes())` at a `u64`, as the driver writes an address.
pub write_u64 : SharedMem → GuestAddr → ℕ → Result MemError SharedMem
unfolding write_slice to_le_bytes
write_u64 m addr v = write_slice m addr (to_le_bytes 8 v)

-- The fences order nothing in one thread: acquire, release and relaxed accesses are plain ones.
abbrev pub load_idx_acquire : SharedMem → GuestAddr → Result MemError ℕ
load_idx_acquire m addr = read_u16 m addr

abbrev pub store_idx_release : SharedMem → GuestAddr → ℕ → Result MemError SharedMem
store_idx_release m addr v = write_u16 m addr v

abbrev pub load_relaxed : SharedMem → GuestAddr → Result MemError ℕ
load_relaxed m addr = read_u16 m addr

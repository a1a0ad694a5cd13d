-- ===== src/Virtio/Mem/RoundTrip.antt =====
-- Reads of mem.rs after writes, stated by the calls alone.
use systems_study.Prelude.{◌⊎◌, inl, inr, ℕ, ◌+◌, ◌≤◌, ◌<◌, ◌≡◌, arith, List, length}
use systems_study.Prelude.Result.{Result, ok, err}
use systems_study.Prelude.Word.{u16_mod, u32_mod, u64_mod, to_le_bytes, length-to_le_bytes}
use systems_study.Virtio.Mem.{
  GuestAddr, MemError, SharedMem, len, read_slice, write_slice, out_of_bounds, read_u16, read_u32,
  read_u64, write_u16, write_u32, write_u64, slice,
}
use systems_study.Virtio.Mem.Laws.{length-slice, slice-splice_disjoint}
use systems_study.Virtio.Mem.Access.{
  IsRegion, Apart, poke, len-poke, read_u16-poke, read_u32-poke, read_u64-poke,
}

-- A write that succeeds lies in the region and overwrites its range.
pub write_slice_inv :
    (m : SharedMem) (a : GuestAddr) (ds : List ℕ) (m' : SharedMem)
    → IsRegion m
    → write_slice m a ds ≡ ok m'
    → (a + length ds ≤ len m) × (poke m a ds ≡ m')
unfolding write_slice
write_slice_inv m a ds m' region e = ground arith

module _ (m : SharedMem) (a v : ℕ) {m' : SharedMem} (region : IsRegion m) where
  read-write_u16 : v < u16_mod → write_u16 m a v ≡ ok m' → read_u16 m' a ≡ ok v
  read-write_u16 small e =
      let w = write_slice_inv m a (to_le_bytes 2 v) m' region (unfold write_u16 in e) in
      rw (← w.1) (read_u16-poke m a v region (omega (arith, w.0, length-to_le_bytes 2 v)) small)

  read-write_u32 : v < u32_mod → write_u32 m a v ≡ ok m' → read_u32 m' a ≡ ok v
  read-write_u32 small e =
      let w = write_slice_inv m a (to_le_bytes 4 v) m' region (unfold write_u32 in e) in
      rw (← w.1) (read_u32-poke m a v region (omega (arith, w.0, length-to_le_bytes 4 v)) small)

  read-write_u64 : v < u64_mod → write_u64 m a v ≡ ok m' → read_u64 m' a ≡ ok v
  read-write_u64 small e =
      let w = write_slice_inv m a (to_le_bytes 8 v) m' region (unfold write_u64 in e) in
      rw (← w.1) (read_u64-poke m a v region (omega (arith, w.0, length-to_le_bytes 8 v)) small)

-- The widths of the word accessors, each with its modulus and its two accessors.
pub data Width : Type 0 where
  w16 : Width
  w32 : Width
  w64 : Width

abbrev pub modulus : Width → ℕ
modulus w16 = u16_mod
modulus w32 = u32_mod
modulus w64 = u64_mod

abbrev pub write_word : Width → SharedMem → GuestAddr → ℕ → Result MemError SharedMem
write_word w16 = write_u16
write_word w32 = write_u32
write_word w64 = write_u64

abbrev pub read_word : Width → SharedMem → GuestAddr → Result MemError ℕ
read_word w16 = read_u16
read_word w32 = read_u32
read_word w64 = read_u64

-- In a region shorter than the address space, a 16-, 32- or 64-bit value that was written without an
-- error is what a read of that width at that address returns.
pub read-write :
    (width : Width) (m : SharedMem) (a v : ℕ) (m' : SharedMem)
    → IsRegion m
    → v < modulus width
    → write_word width m a v ≡ ok m'
    → read_word width m' a ≡ ok v
read-write w16 m a v m' region small e = read-write_u16 m a v region small e
read-write w32 m a v m' region small e = read-write_u32 m a v region small e
read-write w64 m a v m' region small e = read-write_u64 m a v region small e

-- A write that succeeds changes neither the length of the region nor what any read returns, error
-- or bytes, of a range that the write does not meet.
pub read_slice-write_slice :
    (m : SharedMem) (a : ℕ) (ds : List ℕ) (m' : SharedMem) (b n : ℕ)
    → IsRegion m
    → write_slice m a ds ≡ ok m'
    → Apart b n a (length ds)
    → (len m' ≡ len m) × (read_slice m' b n ≡ read_slice m b n)
read_slice-write_slice m a ds m' b n region e apart =
    let w = write_slice_inv m a ds m' region e in rw (← w.1) (len-poke m a ds, same)
  where
    same : read_slice (poke m a ds) b n ≡ read_slice m b n
    same =
        unfold read_slice in
        ground (arith, len-poke m a ds, slice-splice_disjoint a b n ds m.buf apart)

-- A slice access to a region shorter than the address space fails exactly when its end, taken
-- without wrapping at 2^64, lies past the region's; the error carries the address, the length asked
-- for and the region's length; otherwise a read returns that many bytes.
pub read_slice_outcome :
    (m : SharedMem) (a n : ℕ)
    → IsRegion m
    → ((len m < a + n) × (read_slice m a n ≡ err (out_of_bounds a n (len m))))
      ⊎ ((a + n ≤ len m) × (bs : List ℕ) × (read_slice m a n ≡ ok bs) × (length bs ≡ n))
unfolding read_slice
read_slice_outcome m a n region =
    let cases : (len m < a + n) ⊎ (a + n ≤ len m) = omega arith in
    elim cases [
      | inl h ↦ inl (h, ground arith)
      | inr h ↦ inr (h, slice a n m.buf, ground arith, length-slice a n m.buf h)
    ]

-- ===== src/Virtio/Mem/Access.antt =====
-- What the accessors of mem.rs return, by where the access lies, and how a read sees a write.
use systems_study.Prelude.{
  ℕ, suc, ◌+◌, ◌≤◌, ◌<◌, ◌≡◌, ap, arith, ◌⊎◌, List, length, ltb, if◌then◌else◌, ◌∙◌,
}
use systems_study.Prelude.Result.{ok, err}
use systems_study.Prelude.Word.{
  u16_mod, u32_mod, u64_mod, to_le_bytes, from_le_bytes, length-to_le_bytes, from_le_bytes-u16,
  from_le_bytes-u32, from_le_bytes-u64,
}
use systems_study.Virtio.Mem.{
  GuestAddr, out_of_bounds, SharedMem, len, range, slice, splice, read_slice, write_slice, read_u16,
  read_u32, read_u64, write_u16, write_u32, write_u64,
}
use systems_study.Virtio.Mem.Laws.{
  length-splice, slice_two, slice-splice_self, slice-splice_disjoint,
}

-- A `Vec` is never as long as the address space.
abbrev pub IsRegion : SharedMem → Type 0
IsRegion m = len m < u64_mod

-- The little-endian number in `n` bytes, and the region with some bytes overwritten.
abbrev pub peek : ℕ → SharedMem → GuestAddr → ℕ
peek n m a = from_le_bytes (slice a n m.buf)

abbrev pub poke : SharedMem → GuestAddr → List ℕ → SharedMem
poke m a ds = record { buf = splice a ds m.buf }

pub len-poke : (m : SharedMem) (a : GuestAddr) (ds : List ℕ) → len (poke m a ds) ≡ len m
len-poke m a ds = length-splice a ds m.buf

-- The bounds check accepts an access exactly when it ends inside the region, for every 64-bit
-- address and length: a sum past 2^64 is refused, and is not taken modulo 2^64.
pub range_lem :
    (m : SharedMem) (a : GuestAddr) (n : ℕ)
    → IsRegion m
    → range m a n ≡ (if ltb (len m) (a + n) then err (out_of_bounds a n (len m)) else ok (a, a + n))
unfolding range
range_lem m a n h = ground arith

module _ (m : SharedMem) (a : GuestAddr) (region : IsRegion m) where
  range_ok : (n : ℕ) → a + n ≤ len m → range m a n ≡ ok (a, a + n)
  unfolding range
  range_ok n h = ground arith

  pub read_slice_ok : (n : ℕ) → a + n ≤ len m → read_slice m a n ≡ ok (slice a n m.buf)
  unfolding read_slice
  read_slice_ok n h = ground arith

  pub write_slice_ok : (ds : List ℕ) → a + length ds ≤ len m → write_slice m a ds ≡ ok (poke m a ds)
  unfolding write_slice
  write_slice_ok ds h = ground arith

  pub read_u16_ok : a + 2 ≤ len m → read_u16 m a ≡ ok (peek 2 m a)
  unfolding read_u16
  read_u16_ok h =
      let e : a + 1 ≡ suc a = omega arith in rw (slice_two a m.buf h, ← e) (ground arith)

  pub read_u32_ok : a + 4 ≤ len m → read_u32 m a ≡ ok (peek 4 m a)
  unfolding read_u32
  read_u32_ok h = ground arith

  pub read_u64_ok : a + 8 ≤ len m → read_u64 m a ≡ ok (peek 8 m a)
  unfolding read_u64
  read_u64_ok h = ground arith

  module _ (v : ℕ) where
    pub write_u16_ok : a + 2 ≤ len m → write_u16 m a v ≡ ok (poke m a (to_le_bytes 2 v))
    unfolding write_u16
    write_u16_ok h = ground arith

    pub write_u32_ok : a + 4 ≤ len m → write_u32 m a v ≡ ok (poke m a (to_le_bytes 4 v))
    unfolding write_u32
    write_u32_ok h = ground arith

    pub write_u64_ok : a + 8 ≤ len m → write_u64 m a v ≡ ok (poke m a (to_le_bytes 8 v))
    unfolding write_u64
    write_u64_ok h = ground arith

-- An access of `n` bytes at `a` and one of `k` bytes at `b` do not meet.
abbrev pub Apart : ℕ → ℕ → ℕ → ℕ → Type 0
Apart a n b k = (a + n ≤ b) ⊎ (b + k ≤ a)

module _ (m : SharedMem) (a b n : ℕ) (ds : List ℕ) where
  pub peek-poke-Apart : Apart b n a (length ds) → peek n (poke m a ds) b ≡ peek n m b
  peek-poke-Apart h = ap from_le_bytes (slice-splice_disjoint a b n ds m.buf h)

pub peek-poke_self :
    (n : ℕ) (m : SharedMem) (a v : ℕ)
    → a + n ≤ len m
    → peek n (poke m a (to_le_bytes n v)) a ≡ from_le_bytes (to_le_bytes n v)
peek-poke_self n m a v h =
    let e = length-to_le_bytes n v in
    let r : slice a n (splice a (to_le_bytes n v) m.buf) ≡ to_le_bytes n v =
      rw e at (slice-splice_self a (to_le_bytes n v) m.buf (rw e h)) in
    ap from_le_bytes r

pub poke-IsRegion : (m : SharedMem) (a : ℕ) (ds : List ℕ) → IsRegion m → IsRegion (poke m a ds)
poke-IsRegion m a ds region = omega (arith, len-poke m a ds)

module _ (m : SharedMem) (a v : ℕ) (region : IsRegion m) where
  pub read_u16-poke : a + 2 ≤ len m → v < u16_mod → read_u16 (poke m a (to_le_bytes 2 v)) a ≡ ok v
  read_u16-poke h small =
      read_u16_ok (poke m a (to_le_bytes 2 v)) a (poke-IsRegion m a (to_le_bytes 2 v) region)
        (omega (arith, len-poke m a (to_le_bytes 2 v)))
      ∙ ap ok (peek-poke_self 2 m a v h ∙ from_le_bytes-u16 v small)

  pub read_u32-poke : a + 4 ≤ len m → v < u32_mod → read_u32 (poke m a (to_le_bytes 4 v)) a ≡ ok v
  read_u32-poke h small =
      read_u32_ok (poke m a (to_le_bytes 4 v)) a (poke-IsRegion m a (to_le_bytes 4 v) region)
        (omega (arith, len-poke m a (to_le_bytes 4 v)))
      ∙ ap ok (peek-poke_self 4 m a v h ∙ from_le_bytes-u32 v small)

  pub read_u64-poke : a + 8 ≤ len m → v < u64_mod → read_u64 (poke m a (to_le_bytes 8 v)) a ≡ ok v
  read_u64-poke h small =
      read_u64_ok (poke m a (to_le_bytes 8 v)) a (poke-IsRegion m a (to_le_bytes 8 v) region)
        (omega (arith, len-poke m a (to_le_bytes 8 v)))
      ∙ ap ok (peek-poke_self 8 m a v h ∙ from_le_bytes-u64 v small)

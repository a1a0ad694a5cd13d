-- ===== src/Virtio/Driver/Write.antt =====
-- The descriptor that the driver writes, and the one that the device reads there.
use systems_study.Prelude.{
  ℕ, ◌+◌, ◌*◌, ◌≤◌, ◌<◌, ◌≡◌, refl, arith, inl, ◌∙◌, Bool, true, false, not, ◌==◌, some, List,
}
use systems_study.Prelude.Result.{ok}
use systems_study.Prelude.Word.{
  add64, u16_mod, u32_mod, u64_mod, to_le_bytes, from_le_bytes-u16, from_le_bytes-u32,
  from_le_bytes-u64,
}
use systems_study.Virtio.Mem.{SharedMem, len, write_u16, write_u32, write_u64}
use systems_study.Virtio.Mem.Access.{
  IsRegion, peek, poke, len-poke, poke-IsRegion, peek-poke-Apart, peek-poke_self, write_u16_ok,
  write_u32_ok, write_u64_ok,
}
use Prim.Native.Nat.{bit_and}
use systems_study.Virtio.Layout.{Descriptor, has_next, is_write_only, is_indirect}
use systems_study.Virtio.Layout.Placement.{desc_lem}
use systems_study.Virtio.Chain.Entry.{entry, read_descriptor_ok}
use systems_study.Virtio.Chain.Legal.{EntryAt}
use systems_study.Virtio.Device.Calls.{HasRings}
use systems_study.Virtio.Driver.{Buffer, World}
use systems_study.Virtio.Driver.Send.{write_descriptor, flags_of, next_of}

-- What the flags say: the direction, whether a descriptor follows, and never a table.
pub flags_of_lem :
    (b : Buffer) (last : Bool) (d : Descriptor)
    → d.flags ≡ flags_of b last
    → (has_next d ≡ not last) × (is_write_only d ≡ b.device_writable) × (is_indirect d ≡ false)
unfolding flags_of has_next is_write_only is_indirect
flags_of_lem b last d e = rw e (cases b.device_writable last)
  where
    flags : Bool → Bool → ℕ
    flags w l = flags_of (record { addr = 0; len = 0; device_writable = w }) l

    cases :
        (w l : Bool)
        → ((not (bit_and (flags w l) 1 == 0)) ≡ not l)
          × ((not (bit_and (flags w l) 2 == 0)) ≡ w)
          × ((not (bit_and (flags w l) 4 == 0)) ≡ false)
    cases true true = (refl, refl, refl)
    cases true false = (refl, refl, refl)
    cases false true = (refl, refl, refl)
    cases false false = (refl, refl, refl)

pub flags_of_small : (b : Buffer) (last : Bool) → flags_of b last < u16_mod
unfolding flags_of
flags_of_small b last = go b.device_writable last
  where
    go : (w l : Bool) → flags_of (record { addr = 0; len = 0; device_writable = w }) l < u16_mod
    go true true = omega arith
    go true false = omega arith
    go false true = omega arith
    go false false = omega arith

-- The four writes of one descriptor at `at`.
module _ (m : SharedMem) (at addr n flags next : ℕ) where
  abbrev pub with_addr : SharedMem
  with_addr = poke m at (to_le_bytes 8 addr)

  abbrev pub with_len : SharedMem
  with_len = poke with_addr (at + 8) (to_le_bytes 4 n)

  abbrev pub with_flags : SharedMem
  with_flags = poke with_len (at + 12) (to_le_bytes 2 flags)

  abbrev pub written : SharedMem
  written = poke with_flags (at + 14) (to_le_bytes 2 next)

  pub len-written : len written ≡ len m
  len-written = omega (
    arith,
    len-poke m at (to_le_bytes 8 addr),
    len-poke with_addr (at + 8) (to_le_bytes 4 n),
    len-poke with_len (at + 12) (to_le_bytes 2 flags),
    len-poke with_flags (at + 14) (to_le_bytes 2 next),
  )

  module _ (inside : at + 16 ≤ len m) where
    pub peek_addr : addr < u64_mod → peek 8 written at ≡ addr
    unfolding to_le_bytes
    peek_addr small =
        peek-poke-Apart with_flags (at + 14) at 8 (to_le_bytes 2 next) (inl (omega arith))
        ∙ (peek-poke-Apart with_len (at + 12) at 8 (to_le_bytes 2 flags) (inl (omega arith))
            ∙ (peek-poke-Apart with_addr (at + 8) at 8 (to_le_bytes 4 n) (inl (omega arith))
                ∙ (peek-poke_self 8 m at addr (omega arith) ∙ from_le_bytes-u64 addr small)))

    pub peek_len : n < u32_mod → peek 4 written (at + 8) ≡ n
    unfolding to_le_bytes
    peek_len small =
        let e = len-poke m at (to_le_bytes 8 addr) in
        peek-poke-Apart with_flags (at + 14) (at + 8) 4 (to_le_bytes 2 next) (inl (omega arith))
        ∙ (peek-poke-Apart with_len (at + 12) (at + 8) 4 (to_le_bytes 2 flags) (inl (omega arith))
            ∙ (peek-poke_self 4 with_addr (at + 8) n (omega (arith, e))
                ∙ from_le_bytes-u32 n small))

    pub peek_flags : flags < u16_mod → peek 2 written (at + 12) ≡ flags
    unfolding to_le_bytes
    peek_flags small =
        let e = len-poke m at (to_le_bytes 8 addr) in
        let f = len-poke with_addr (at + 8) (to_le_bytes 4 n) in
        peek-poke-Apart with_flags (at + 14) (at + 12) 2 (to_le_bytes 2 next) (inl (omega arith))
        ∙ (peek-poke_self 2 with_len (at + 12) flags (omega (arith, e, f))
            ∙ from_le_bytes-u16 flags small)

    pub peek_next : next < u16_mod → peek 2 written (at + 14) ≡ next
    unfolding to_le_bytes
    peek_next small =
        let e = len-poke m at (to_le_bytes 8 addr) in
        let f = len-poke with_addr (at + 8) (to_le_bytes 4 n) in
        let g = len-poke with_len (at + 12) (to_le_bytes 2 flags) in
        peek-poke_self 2 with_flags (at + 14) next (omega (arith, e, f, g))
        ∙ from_le_bytes-u16 next small

-- The four calls succeed, one after the other.
pub record FourWrites (m : SharedMem) (at addr n flags next : ℕ) : Type 0 where
  pub addr_ok : write_u64 m at addr ≡ ok (with_addr m at addr n flags next)
  pub len_ok :
      write_u32 (with_addr m at addr n flags next) (add64 at 8) n
      ≡ ok (with_len m at addr n flags next)
  pub flags_ok :
      write_u16 (with_len m at addr n flags next) (add64 at 12) flags
      ≡ ok (with_flags m at addr n flags next)
  pub next_ok :
      write_u16 (with_flags m at addr n flags next) (add64 at 14) next
      ≡ ok (written m at addr n flags next)

pub four_writes :
    (m : SharedMem) (at addr n flags next : ℕ)
    → IsRegion m
    → at + 16 ≤ len m
    → FourWrites m at addr n flags next
four_writes m at addr n flags next region room =
    let m1 = with_addr m at addr n flags next in
    let m2 = with_len m at addr n flags next in
    let m3 = with_flags m at addr n flags next in
    let r1 : IsRegion m1 = poke-IsRegion m at (to_le_bytes 8 addr) region in
    let r2 : IsRegion m2 = poke-IsRegion m1 (at + 8) (to_le_bytes 4 n) r1 in
    let r3 : IsRegion m3 = poke-IsRegion m2 (at + 12) (to_le_bytes 2 flags) r2 in
    let s1 = len-poke m at (to_le_bytes 8 addr) in
    let s2 = len-poke m1 (at + 8) (to_le_bytes 4 n) in
    let s3 = len-poke m2 (at + 12) (to_le_bytes 2 flags) in
    let e8 : add64 at 8 ≡ at + 8 = omega (arith, region, room) in
    let e12 : add64 at 12 ≡ at + 12 = omega (arith, region, room) in
    let e14 : add64 at 14 ≡ at + 14 = omega (arith, region, room) in
    record {
      addr_ok = write_u64_ok m at region addr (omega (arith, room));
      len_ok = rw e8 (write_u32_ok m1 (at + 8) r1 n (omega (arith, room, s1)));
      flags_ok = rw e12 (write_u16_ok m2 (at + 12) r2 flags (omega (arith, room, s1, s2)));
      next_ok = rw e14 (write_u16_ok m3 (at + 14) r3 next (omega (arith, room, s1, s2, s3)));
    }

-- The writes of one descriptor succeed.
pub write_descriptor_writes :
    (w : World) (i next : ℕ) (is : List ℕ) (b : Buffer) (last : Bool)
    → HasRings w.drv.layout w.memory
    → i < w.drv.layout.queue_size
    → next_of last is ≡ some next
    → write_descriptor i is b last w ≡ (
      ok tt,
      record w {
        memory =
            written w.memory (w.drv.layout.desc_table + 16 * i) b.addr b.len (flags_of b last) next;
      },
    )
unfolding write_descriptor
write_descriptor_writes w i next is b last h inside en =
    let l = w.drv.layout in
    let m = w.memory in
    let at = l.desc_table + 16 * i in
    let p = h.placed in
    let room : at + 16 ≤ len m = omega (arith, h.inside, p.desc_first, p.avail_second, inside) in
    let f = four_writes m at b.addr b.len (flags_of b last) next h.region room in
    rw (desc_lem p i inside, f.addr_ok, f.len_ok, f.flags_ok, en, f.next_ok)

-- The driver writes what the device reads. On placed rings, for a descriptor of the table and a
-- buffer and a next index of their widths, the loop body of `add_chain` writes the descriptor without
-- an error and leaves the driver as it is; the device's `read_descriptor` then finds there the
-- buffer's address and length and the next index, and flags that say that a descriptor follows
-- exactly where this one is not the last, that the device may write exactly where the buffer allows
-- it, and that it is no indirect table.
pub read_descriptor-write_descriptor :
    (w : World) (i next : ℕ) (is : List ℕ) (b : Buffer) (last : Bool)
    → HasRings w.drv.layout w.memory
    → i < w.drv.layout.queue_size
    → b.addr < u64_mod
    → b.len < u32_mod
    → next_of last is ≡ some next
    → next < u16_mod
    → (w' : World) × (d : Descriptor) × (write_descriptor i is b last w ≡ (ok tt, w'))
      × (w'.drv ≡ w.drv)
      × EntryAt w'.memory w.drv.layout i d
      × (d.addr ≡ b.addr)
      × (d.len ≡ b.len)
      × (d.next ≡ next)
      × (has_next d ≡ not last)
      × (is_write_only d ≡ b.device_writable)
      × (is_indirect d ≡ false)
read_descriptor-write_descriptor w i next is b last h inside small_addr small_len en small_next =
    let m = w.memory in
    let at = w.drv.layout.desc_table + 16 * i in
    let flags = flags_of b last in
    let p = h.placed in
    let room : at + 16 ≤ len m = omega (arith, h.inside, p.desc_first, p.avail_second, inside) in
    let m4 = written m at b.addr b.len flags next in
    let s4 = len-written m at b.addr b.len flags next in
    let meaning =
      flags_of_lem b last (entry m4 at)
        (peek_flags m at b.addr b.len flags next room (flags_of_small b last)) in
    (
      record w { memory = m4 },
      entry m4 at,
      write_descriptor_writes w i next is b last h inside en,
      refl,
      (
        at,
        desc_lem p i inside,
        read_descriptor_ok m4 at (omega (arith, h.region, s4)) (omega (arith, room, s4)),
      ),
      peek_addr m at b.addr b.len flags next room small_addr,
      peek_len m at b.addr b.len flags next room small_len,
      peek_next m at b.addr b.len flags next room small_next,
      meaning.0,
      meaning.1,
      meaning.2,
    )

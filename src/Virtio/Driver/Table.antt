-- ===== src/Virtio/Driver/Table.antt =====
-- The loop of `add_chain` that writes the descriptors leaves a linked chain in the table.
use systems_study.Prelude.{
  ℕ, ◌+◌, ◌*◌, ◌≤◌, ◌<◌, ◌≡◌, refl, ◌∙◌, arith, ◌⊎◌, Bool, false, not, List, [], ◌∷◌,
}
use systems_study.Prelude.Word.{u16_mod, u32_mod, u64_mod, to_le_bytes}
use systems_study.Virtio.Mem.{SharedMem, len}
use systems_study.Virtio.Layout.{Descriptor, VirtqLayout, has_next, is_write_only, is_indirect}
use systems_study.Virtio.Layout.Placement.{desc_lem}
use systems_study.Virtio.Chain.Entry.{entry, read_descriptor_ok}
use systems_study.Virtio.Chain.Legal.{EntryAt}
use systems_study.Virtio.Device.Calls.{HasRings}
use systems_study.Virtio.Device.Frozen.{Frozen, Frozen-trans, Frozen-poke}
use systems_study.Virtio.Driver.{Buffer}
use systems_study.Virtio.Driver.Send.{flags_of}
use systems_study.Virtio.Driver.Pool.{count}
use systems_study.Virtio.Driver.Write.{
  written, with_addr, with_len, with_flags, len-written, peek_addr, peek_len, peek_flags, peek_next,
  flags_of_lem, flags_of_small,
}

-- Different indices of the table.
abbrev pub AreIndices : ℕ → List ℕ → Type 0
AreIndices q [] = Unit
AreIndices q (i ∷ is) = (i < q) × (count i is ≡ 0) × AreIndices q is

-- Addresses and lengths of their widths.
abbrev pub AreWords : List Buffer → Type 0
AreWords [] = Unit
AreWords (b ∷ bs) = (b.addr < u64_mod) × (b.len < u32_mod) × AreWords bs

-- A descriptor that says what the buffer is.
abbrev pub Describes : Descriptor → Buffer → Type 0
Describes d b =
    (d.addr ≡ b.addr)
    × (d.len ≡ b.len)
    × (is_write_only d ≡ b.device_writable)
    × (is_indirect d ≡ false)

abbrev pub AllDescribe : List Descriptor → List Buffer → Type 0
AllDescribe [] [] = Unit
AllDescribe (d ∷ ds) (b ∷ bs) = Describes d b × AllDescribe ds bs
AllDescribe _ _ = ⊥

written-Frozen :
    (lo hi : ℕ) (m : SharedMem) (at addr n flags next : ℕ)
    → (at + 16 ≤ lo) ⊎ (hi ≤ at)
    → Frozen lo hi m (written m at addr n flags next)
unfolding to_le_bytes
written-Frozen lo hi m at addr n flags next apart =
    let m1 = with_addr m at addr n flags next in
    let m2 = with_len m at addr n flags next in
    let m3 = with_flags m at addr n flags next in
    Frozen-trans (Frozen-poke lo hi m at (to_le_bytes 8 addr) (omega arith)) (
      Frozen-trans (Frozen-poke lo hi m1 (at + 8) (to_le_bytes 4 n) (omega arith)) (
        Frozen-trans (Frozen-poke lo hi m2 (at + 12) (to_le_bytes 2 flags) (omega arith))
          (Frozen-poke lo hi m3 (at + 14) (to_le_bytes 2 next) (omega arith))))

pub entry-Frozen : (m m' : SharedMem) (at : ℕ) → Frozen at (at + 16) m m' → entry m' at ≡ entry m at
entry-Frozen m m' at f =
    rw
      (
        f.same at 8 (omega arith) (omega arith),
        f.same (at + 8) 4 (omega arith) (omega arith),
        f.same (at + 12) 2 (omega arith) (omega arith),
        f.same (at + 14) 2 (omega arith) (omega arith),
      )
      refl

pub HasRings-len :
    {l : VirtqLayout} {m m' : SharedMem} → len m' ≡ len m → HasRings l m → HasRings l m'
HasRings-len e h = record {
  placed = h.placed;
  region = omega (arith, h.region);
  inside = omega (arith, h.inside);
}

pub EntryAt-entry :
    (l : VirtqLayout) (m : SharedMem) (i : ℕ)
    → HasRings l m
    → i < l.queue_size
    → EntryAt m l i (entry m (l.desc_table + 16 * i))
EntryAt-entry l m i h inside =
    let p = h.placed in
    (
      l.desc_table + 16 * i,
      desc_lem p i inside,
      read_descriptor_ok m (l.desc_table + 16 * i) h.region
          (omega (arith, h.inside, p.desc_first, p.avail_second)),
    )

-- What the loop leaves alone: all but the table, and the entries of other indices.
pub record Rest (l : VirtqLayout) (is : List ℕ) (m m' : SharedMem) : Type 0 where
  pub length_kept : len m' ≡ len m
  pub outside :
      (lo hi : ℕ)
      → (hi ≤ l.desc_table) ⊎ (l.desc_table + 16 * l.queue_size ≤ lo)
      → Frozen lo hi m m'
  pub others :
      (j : ℕ) → count j is ≡ 0 → Frozen (l.desc_table + 16 * j) (l.desc_table + 16 * j + 16) m m'

pub Rest-trans :
    {l : VirtqLayout} {m n p : SharedMem} (i : ℕ) (is : List ℕ)
    → Rest l (i ∷ []) m n
    → Rest l is n p
    → Rest l (i ∷ is) m p
Rest-trans i is r s = record {
  length_kept = s.length_kept ∙ r.length_kept;
  outside = λ lo hi h. Frozen-trans (r.outside lo hi h) (s.outside lo hi h);
  others = λ j h. Frozen-trans (r.others j (ground arith)) (s.others j (ground arith));
}

pub written-Rest :
    (l : VirtqLayout) (m : SharedMem) (i addr n flags next : ℕ)
    → i < l.queue_size
    → Rest l (i ∷ []) m (written m (l.desc_table + 16 * i) addr n flags next)
written-Rest l m i addr n flags next inside =
    let at = l.desc_table + 16 * i in
    record {
      length_kept = len-written m at addr n flags next;
      outside = λ lo hi h. written-Frozen lo hi m at addr n flags next (omega arith);
      others = λ j h.
          written-Frozen (l.desc_table + 16 * j) (l.desc_table + 16 * j + 16) m at addr n flags next
            (ground arith);
    }

-- The entry just written.
pub written-Describes :
    (m : SharedMem) (at next : ℕ) (b : Buffer) (final : Bool)
    → at + 16 ≤ len m
    → b.addr < u64_mod
    → b.len < u32_mod
    → next < u16_mod
    → (let d = entry (written m at b.addr b.len (flags_of b final) next) at in
        Describes d b × (d.next ≡ next) × (has_next d ≡ not final))
written-Describes m at next b final room a n s =
    let flags = flags_of b final in
    let meaning =
      flags_of_lem b final (entry (written m at b.addr b.len flags next) at)
        (peek_flags m at b.addr b.len flags next room (flags_of_small b final)) in
    (
      (
        peek_addr m at b.addr b.len flags next room a,
        peek_len m at b.addr b.len flags next room n,
        meaning.1,
        meaning.2,
      ),
      peek_next m at b.addr b.len flags next room s,
      meaning.0,
    )

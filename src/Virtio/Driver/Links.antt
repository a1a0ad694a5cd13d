-- ===== src/Virtio/Driver/Links.antt =====
-- The loop of `add_chain` that writes the descriptors leaves a linked chain in the table.
use systems_study.Prelude.{
  ℕ, ◌+◌, ◌*◌, ◌≤◌, ◌<◌, ◌≡◌, refl, ap, sym, ◌∙◌, arith, true, false, List, [], ◌∷◌, length,
}
use mathlib.Core.Path.{subst}
use systems_study.Prelude.Result.{ok}
use systems_study.Prelude.Word.{u16_mod}
use systems_study.Virtio.Mem.{SharedMem, len}
use systems_study.Virtio.Layout.{Descriptor, VirtqLayout, has_next}
use systems_study.Virtio.Chain.Entry.{entry}
use systems_study.Virtio.Chain.Legal.{Linked, last, link}
use systems_study.Virtio.Device.Calls.{HasRings}
use systems_study.Virtio.Driver.{Buffer, World}
use systems_study.Virtio.Driver.Send.{write_descriptors, flags_of}
use systems_study.Virtio.Driver.Write.{written, len-written, write_descriptor_writes}
use systems_study.Virtio.Driver.Table.{
  AreIndices, AreWords, Describes, AllDescribe, entry-Frozen, HasRings-len, EntryAt-entry, Rest,
  Rest-trans, written-Rest, written-Describes,
}

-- The chain in the table after the loop, the rest of the region unchanged.
abbrev pub Links : World → ℕ → List ℕ → Buffer → List Buffer → Type 0
Links w i is b bs =
    (m : SharedMem) × (ds : List Descriptor) × (write_descriptors (i ∷ is) (b ∷ bs) w
      ≡ (ok tt, record w { memory = m }))
    × Rest w.drv.layout (i ∷ is) w.memory m
    × Linked m w.drv.layout i ds
    × AllDescribe ds (b ∷ bs)

room_lem :
    (l : VirtqLayout) (m : SharedMem) (i : ℕ)
    → HasRings l m
    → i < l.queue_size
    → l.desc_table + 16 * i + 16 ≤ len m
room_lem l m i h inside = let p = h.placed in omega (arith, h.inside, p.desc_first, p.avail_second)

Links-last :
    (w : World) (i : ℕ) (b : Buffer)
    → HasRings w.drv.layout w.memory
    → AreIndices w.drv.layout.queue_size (i ∷ [])
    → AreWords (b ∷ [])
    → Links w i [] b []
unfolding write_descriptors
Links-last w i b h (inside, alone, none_left) (a, n, words) =
    let l = w.drv.layout in
    let at = l.desc_table + 16 * i in
    let m1 = written w.memory at b.addr b.len (flags_of b true) 0 in
    let rings : HasRings l m1 =
      HasRings-len (len-written w.memory at b.addr b.len (flags_of b true) 0) h in
    let (says, next, more) =
      written-Describes w.memory at 0 b true (room_lem l w.memory i h inside) a n (omega arith) in
    (
      m1,
      entry m1 at ∷ [],
      rw (write_descriptor_writes w i 0 [] b true h inside refl),
      written-Rest l w.memory i b.addr b.len (flags_of b true) 0 inside,
      last i (entry m1 at) (EntryAt-entry l m1 i rings inside) more,
      (says, tt),
    )

-- The entry of `i` holds after the rest of the chain is written.
Links-more :
    (w : World) (i j : ℕ) (is : List ℕ) (b c : Buffer) (bs : List Buffer)
    → HasRings w.drv.layout w.memory
    → AreIndices w.drv.layout.queue_size (i ∷ j ∷ is)
    → AreWords (b ∷ c ∷ bs)
    → ((m1 : SharedMem) → HasRings w.drv.layout m1 → Links (record w { memory = m1 }) j is c bs)
    → Links w i (j ∷ is) b (c ∷ bs)
unfolding write_descriptors
Links-more w i j is b c bs h (inside, alone, after) (a, n, words) rest =
    let l = w.drv.layout in
    let at = l.desc_table + 16 * i in
    let m1 = written w.memory at b.addr b.len (flags_of b false) j in
    let rings : HasRings l m1 =
      HasRings-len (len-written w.memory at b.addr b.len (flags_of b false) j) h in
    let small : j < u16_mod = omega (arith, h.placed.size_small, after.0) in
    let (says, next, more) =
      written-Describes w.memory at j b false (room_lem l w.memory i h inside) a n small in
    let (m, ds, done, kept, linked, describe) = rest m1 rings in
    let same : entry m at ≡ entry m1 at = entry-Frozen m1 m at (kept.others i alone) in
    let d = entry m at in
    let next' : d.next ≡ j = ap (λ (e : Descriptor). e.next) same ∙ next in
    (
      m,
      d ∷ ds,
      rw (write_descriptor_writes w i j (j ∷ is) b false h inside refl) done,
      Rest-trans i (j ∷ is) (written-Rest l w.memory i b.addr b.len (flags_of b false) j inside)
          kept,
      link i d ds (EntryAt-entry l m i (HasRings-len kept.length_kept rings) inside)
          (ap has_next same ∙ more) (subst (λ (x : ℕ). Linked m l x ds) (sym next') linked),
      (subst (λ (e : Descriptor). Describes e b) (sym same) says, describe),
    )

-- Over different indices of the table and buffers of their widths, the loop succeeds, changes nothing
-- but these entries, and leaves a chain that is linked from the first index and describes the buffers.
pub write_descriptors_lem :
    (w : World) (i : ℕ) (is : List ℕ) (b : Buffer) (bs : List Buffer)
    → HasRings w.drv.layout w.memory
    → AreIndices w.drv.layout.queue_size (i ∷ is)
    → length is ≡ length bs
    → AreWords (b ∷ bs)
    → Links w i is b bs
write_descriptors_lem w i [] b [] h indices e words = Links-last w i b h indices words
write_descriptors_lem w i [] b (c ∷ bs) h indices e words = absurd (omega arith)
write_descriptors_lem w i (j ∷ is) b [] h indices e words = absurd (omega arith)
write_descriptors_lem w i (j ∷ is) b (c ∷ bs) h indices e words =
    Links-more w i j is b c bs h indices words (λ m1 rings.
      write_descriptors_lem (record w { memory = m1 }) j is c bs rings indices.2 (omega arith)
        words.2)

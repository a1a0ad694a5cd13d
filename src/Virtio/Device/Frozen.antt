-- ===== src/Virtio/Device/Frozen.antt =====
-- A range of the region that a write leaves alone, and the descriptor table in such a range.
use systems_study.Prelude.{
  ℕ, ◌+◌, ◌*◌, ◌≤◌, ◌≡◌, refl, arith, ◌⊎◌, inl, inr, ◌∙◌, ap, sym, true, List, [], ◌∷◌, length,
  Bool-cases,
}
use systems_study.Prelude.Result.{ok}
use systems_study.Virtio.Mem.{SharedMem, len, slice}
use systems_study.Virtio.Mem.Laws.{slice-splice_disjoint}
use systems_study.Virtio.Mem.Access.{IsRegion, poke, len-poke}
use systems_study.Virtio.Layout.{Descriptor, VirtqLayout, is_write_only}
use systems_study.Virtio.Layout.Placement.{IsPlaced, desc_lem, desc_out}
use native.Mathlib.Decide.{dec_lt}
use systems_study.Virtio.Chain.{read_descriptor}
use systems_study.Virtio.Chain.Entry.{entry, read_descriptor_ok}
use systems_study.Virtio.Chain.Legal.{EntryAt, Linked, last, link, writable_of}

-- From `lo` to `hi` the two regions hold the same bytes, and they have the same length.
pub record Frozen (lo hi : ℕ) (m m' : SharedMem) : Type 0 where
  pub same_len : len m' ≡ len m
  pub same : (a n : ℕ) → lo ≤ a → a + n ≤ hi → slice a n m'.buf ≡ slice a n m.buf

pub Frozen-refl : (lo hi : ℕ) (m : SharedMem) → Frozen lo hi m m
Frozen-refl lo hi m = record { same_len = refl; same = λ a n p q. refl }

pub Frozen-trans :
    {lo hi : ℕ} {m n p : SharedMem} → Frozen lo hi m n → Frozen lo hi n p → Frozen lo hi m p
Frozen-trans f g = record {
  same_len = g.same_len ∙ f.same_len;
  same = λ a n p q. g.same a n p q ∙ f.same a n p q;
}

pub Frozen-mono :
    {lo hi lo' hi' : ℕ} {m n : SharedMem}
    → Frozen lo hi m n
    → lo ≤ lo'
    → hi' ≤ hi
    → Frozen lo' hi' m n
Frozen-mono f p q = record {
  same_len = f.same_len;
  same = λ a n x y. f.same a n (omega arith) (omega arith);
}

pub Frozen-poke :
    (lo hi : ℕ) (m : SharedMem) (a : ℕ) (ds : List ℕ)
    → (a + length ds ≤ lo) ⊎ (hi ≤ a)
    → Frozen lo hi m (poke m a ds)
Frozen-poke lo hi m a ds h = record {
  same_len = len-poke m a ds;
  same = λ b n p q. slice-splice_disjoint a b n ds m.buf (omega arith);
}

module _ {l : VirtqLayout} (p : IsPlaced l) {m m' : SharedMem} (r : IsRegion m)
    (inside : l.used_ring + 6 + 8 * l.queue_size ≤ len m)
    (f : Frozen l.desc_table l.used_ring m m') where
  frozen-IsRegion : IsRegion m'
  frozen-IsRegion = omega (arith, f.same_len)

  read_descriptor-frozen :
      (at : ℕ)
      → l.desc_table ≤ at
      → at + 16 ≤ l.avail_ring
      → read_descriptor m' at ≡ read_descriptor m at
  read_descriptor-frozen at lo hi =
      let e : entry m' at ≡ entry m at = rw (
        f.same at 8 (omega arith) (omega (arith, p.avail_second)),
        f.same (at + 8) 4 (omega arith) (omega (arith, p.avail_second)),
        f.same (at + 12) 2 (omega arith) (omega (arith, p.avail_second)),
        f.same (at + 14) 2 (omega arith) (omega (arith, p.avail_second)),
      ) in
      read_descriptor_ok m' at frozen-IsRegion (omega (arith, f.same_len, p.avail_second))
      ∙ (ap ok e ∙ sym (read_descriptor_ok m at r (omega (arith, p.avail_second))))

  -- The entries of the table are what they were.
  pub EntryAt-frozen : (i : ℕ) (d : Descriptor) → EntryAt m' l i d → EntryAt m l i d
  EntryAt-frozen i d (at, e, h) = elim (dec_lt i l.queue_size) [
    | no out ↦ absurd (ground (arith, desc_out p i))
    | yes i_lt ↦
        let at_eq : at ≡ l.desc_table + 16 * i = ground (arith, desc_lem p i i_lt) in
        let same = read_descriptor-frozen at (omega arith) (omega (arith, p.desc_first)) in
        (at, e, sym same ∙ h)
  ]

-- Buffers of which no byte lies from `lo` to `hi`.
abbrev pub Clear : ℕ → ℕ → List (ℕ × ℕ) → Type 0
Clear lo hi [] = Unit
Clear lo hi ((addr, len) ∷ bs) = ((addr + len ≤ lo) ⊎ (hi ≤ addr)) × Clear lo hi bs

-- No device-writable buffer of any entry of the table meets the rings.
abbrev pub BuffersClear : VirtqLayout → SharedMem → Type 0
BuffersClear l m =
    (i : ℕ) (d : Descriptor)
    → EntryAt m l i d
    → is_write_only d ≡ true
    → (d.addr + d.len ≤ l.desc_table) ⊎ (l.used_ring + 6 + 8 * l.queue_size ≤ d.addr)

pub Linked-Clear :
    (l : VirtqLayout) (m : SharedMem) (i : ℕ) (ds : List Descriptor)
    → BuffersClear l m
    → Linked m l i ds
    → Clear l.desc_table (l.used_ring + 6 + 8 * l.queue_size) (writable_of ds)
Linked-Clear l m i [] b x = elim x [ ]
Linked-Clear l m i (d ∷ []) b (last _ _ at _) = elim (Bool-cases (is_write_only d)) [
  | inl w ↦ rw w (b i d at w, tt)
  | inr r ↦ rw r tt
]
Linked-Clear l m i (d ∷ ds) b (link _ _ _ at _ rest) =
    let ih = Linked-Clear l m d.next ds b rest in
    elim (Bool-cases (is_write_only d)) [ inl w ↦ rw w (b i d at w, ih) | inr r ↦ rw r ih ]

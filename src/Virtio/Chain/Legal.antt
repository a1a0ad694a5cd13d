-- ===== src/Virtio/Chain/Legal.antt =====
-- What a chain of descriptors must be, apart from any walk: the list that the `next` fields link
-- together in the table, and the conditions on such a list.
use systems_study.Prelude.{
  ℕ, ◌+◌, ◌≤◌, ◌<◌, ◌≡◌, true, false, some, List, [], ◌∷◌, length, if◌then◌else◌,
}
use systems_study.Prelude.Result.{ok}
use systems_study.Prelude.Word.{u32_mod}
use systems_study.Virtio.Mem.{GuestAddr, SharedMem}
use systems_study.Virtio.Layout.{
  Descriptor, has_next, is_write_only, is_indirect, VirtqLayout, desc,
}
use systems_study.Virtio.Chain.{read_descriptor}

-- Index `i` is in the table, and its entry reads as `d`.
abbrev pub EntryAt : SharedMem → VirtqLayout → ℕ → Descriptor → Type 0
EntryAt m l i d = (at : GuestAddr) × (desc l i ≡ some at) × (read_descriptor m at ≡ ok d)

-- The descriptors met from index `i` on, up to the first that has no next.
pub data Linked (m : SharedMem) (l : VirtqLayout) : ℕ → List Descriptor → Type 0 where
  last : (i : ℕ) (d : Descriptor) → EntryAt m l i d → has_next d ≡ false → Linked m l i (d ∷ [])
  link :
      (i : ℕ) (d : Descriptor) (ds : List Descriptor)
      → EntryAt m l i d
      → has_next d ≡ true
      → Linked m l d.next ds
      → Linked m l i (d ∷ ds)

abbrev pub total : List Descriptor → ℕ
total [] = 0
total (d ∷ ds) = d.len + total ds

abbrev pub AllWritable : List Descriptor → Type 0
AllWritable [] = Unit
AllWritable (d ∷ ds) = (is_write_only d ≡ true) × AllWritable ds

-- Nothing readable after something writable.
abbrev pub IsOrdered : List Descriptor → Type 0
IsOrdered [] = Unit
IsOrdered (d ∷ ds) = (is_write_only d ≡ true → AllWritable ds) × IsOrdered ds

abbrev pub AllDirect : List Descriptor → Type 0
AllDirect [] = Unit
AllDirect (d ∷ ds) = (is_indirect d ≡ false) × AllDirect ds

-- The rules of the specification for a queue of `q` entries.
pub record IsLegal (q : ℕ) (ds : List Descriptor) : Type 0 where
  pub short : length ds ≤ q
  pub small : total ds < u32_mod
  pub ordered : IsOrdered ds
  pub direct : AllDirect ds

-- The buffers of one direction, in order.
abbrev pub readable_of : List Descriptor → List (ℕ × ℕ)
readable_of [] = []
readable_of (d ∷ ds) = if is_write_only d then readable_of ds else (d.addr, d.len) ∷ readable_of ds

abbrev pub writable_of : List Descriptor → List (ℕ × ℕ)
writable_of [] = []
writable_of (d ∷ ds) = if is_write_only d then (d.addr, d.len) ∷ writable_of ds else writable_of ds

pub EntryAt-unique :
    (m : SharedMem) (l : VirtqLayout) (i : ℕ) (d d' : Descriptor)
    → EntryAt m l i d
    → EntryAt m l i d'
    → d ≡ d'
EntryAt-unique m l i d d' (at, e, r) (at', e', r') = cc

-- ===== src/Virtio/Sample.antt =====
-- A queue of two entries with one available chain: a readable buffer, then a writable one.
use systems_study.Prelude.{ℕ, refl, arith, List, [], ◌∷◌, ◌++◌, replicate}
use systems_study.Virtio.Mem.{SharedMem}
use systems_study.Virtio.Layout.{Descriptor, VirtqLayout}
use systems_study.Virtio.Layout.Placement.{IsPlaced}
use systems_study.Virtio.Device.Calls.{HasRings}

abbrev pub two : VirtqLayout
two = record { queue_size = 2; desc_table = 0; avail_ring = 32; used_ring = 44 }

abbrev pub table : List ℕ
table =
    72 ∷ 0 ∷ 0 ∷ 0 ∷ 0 ∷ 0 ∷ 0 ∷ 0 ∷ 4 ∷ 0 ∷ 0 ∷ 0 ∷ 1 ∷ 0 ∷ 1 ∷ 0 ∷ 80 ∷ 0 ∷ 0 ∷ 0 ∷ 0 ∷ 0 ∷ 0 ∷ 0
    ∷ 4 ∷ 0 ∷ 0 ∷ 0 ∷ 2 ∷ 0 ∷ 0 ∷ 0 ∷ []

-- The available index is 1, and slot 0 holds head 0.
abbrev pub sample : SharedMem
sample = record {
  buf = table ++ (0 ∷ 0 ∷ 1 ∷ 0 ∷ replicate 36 0 ++ (5 ∷ 6 ∷ 7 ∷ 8 ∷ replicate 20 0));
}

abbrev pub request : Descriptor
request = record { addr = 72; len = 4; flags = 1; next = 1 }

abbrev pub response : Descriptor
response = record { addr = 80; len = 4; flags = 2; next = 0 }

pub two-IsPlaced : IsPlaced two
two-IsPlaced = record {
  size = (1, omega arith, refl);
  size_pos = omega arith;
  size_small = omega arith;
  desc_aligned = refl;
  avail_aligned = refl;
  used_aligned = refl;
  desc_first = omega arith;
  avail_second = omega arith;
  used_last = omega arith;
}

pub sample-HasRings : HasRings two sample
sample-HasRings = record { placed = two-IsPlaced; region = omega arith; inside = omega arith }

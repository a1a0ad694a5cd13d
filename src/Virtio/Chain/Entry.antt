-- ===== src/Virtio/Chain/Entry.antt =====
-- Reading one entry of the descriptor table.
use systems_study.Prelude.{ℕ, ◌+◌, ◌≤◌, ◌≡◌, arith}
use systems_study.Prelude.Result.{ok}
use systems_study.Prelude.Word.{add64}
use systems_study.Virtio.Mem.{SharedMem, len}
use systems_study.Virtio.Mem.Access.{IsRegion, peek, read_u16_ok, read_u32_ok, read_u64_ok}
use systems_study.Virtio.Layout.{Descriptor}
use systems_study.Virtio.Chain.{read_descriptor}

-- The descriptor in the sixteen bytes from `at` on.
abbrev pub entry : SharedMem → ℕ → Descriptor
entry m at = record {
  addr = peek 8 m at;
  len = peek 4 m (at + 8);
  flags = peek 2 m (at + 12);
  next = peek 2 m (at + 14);
}

pub read_descriptor_ok :
    (m : SharedMem) (at : ℕ) → IsRegion m → at + 16 ≤ len m → read_descriptor m at ≡ ok (entry m at)
unfolding read_descriptor
read_descriptor_ok m at region h =
    let e8 : add64 at 8 ≡ at + 8 = omega arith in
    let e12 : add64 at 12 ≡ at + 12 = omega arith in
    let e14 : add64 at 14 ≡ at + 14 = omega arith in
    rw (
      e8,
      e12,
      e14,
      read_u64_ok m at region (omega arith),
      read_u32_ok m (at + 8) region (omega arith),
      read_u16_ok m (at + 12) region (omega arith),
      read_u16_ok m (at + 14) region (omega arith),
    )

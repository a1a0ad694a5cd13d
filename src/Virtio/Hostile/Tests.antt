-- ===== src/Virtio/Hostile/Tests.antt =====
-- A chain that links to itself, and the cycle of `hostile_chains`, on the queue of two entries.
use mathlib.Core.Path.{subst}
use systems_study.Prelude.{
  ℕ, ◌+◌, false, ◌≡◌, refl, sym, ap, ◌∙◌, arith, some, List, [], ◌∷◌, replicate,
}
use systems_study.Prelude.Result.{ok}
use systems_study.Prelude.Word.{from_le_bytes}
use systems_study.Virtio.Mem.{SharedMem, slice}
use systems_study.Virtio.Layout.{Descriptor, has_next}
use systems_study.Virtio.Layout.Placement.{desc_lem}
use systems_study.Virtio.Sample.{two, sample, two-IsPlaced, sample-HasRings}
use systems_study.Virtio.Chain.Entry.{entry, read_descriptor_ok}
use systems_study.Virtio.Chain.Legal.{EntryAt}
use systems_study.Virtio.Device.{Device}
use systems_study.Virtio.Device.Process.{ProcessStats}
use systems_study.Virtio.Hostile.{two_cycle}
use systems_study.Virtio.Hostile.Endless.{IsEndless, Refused, endless-Refused}
use systems_study.Virtio.Hostile.Cycle.{two_cycle-Refused}

abbrev looped : SharedMem
looped = record {
  buf = 72 ∷ 0 ∷ 0 ∷ 0 ∷ 0 ∷ 0 ∷ 0 ∷ 0 ∷ 4 ∷ 0 ∷ 0 ∷ 0 ∷ 1 ∷ 0 ∷ 0 ∷ 0 ∷ replicate 80 0;
}

abbrev to_itself : Descriptor
to_itself = record { addr = 72; len = 4; flags = 1; next = 0 }

zeroth : entry looped 0 ≡ to_itself
unfolding from_le_bytes slice
zeroth = refl

at_0 : EntryAt looped two 0 to_itself
at_0 = (
  0,
  desc_lem two-IsPlaced 0 (omega arith),
  read_descriptor_ok looped 0 (omega arith) (omega arith) ∙ ap ok zeroth,
)

looped-IsEndless : IsEndless looped two (λ i. i ≡ 0)
unfolding has_next
looped-IsEndless i e =
    (to_itself, subst (λ (k : ℕ). EntryAt looped two k to_itself) (sym e) at_0, refl, refl)

abbrev no_chains : ProcessStats
no_chains = record { chains = 0; descriptors = 0; bytes_read = 0; bytes_written = 0; rejected = [] }

abbrev fresh : Device
fresh = record { layout = two; next_avail = 0; next_used = 0; num_added = 0; event_idx = false }

abbrev echo : ℕ → List ℕ → List ℕ × ℕ
echo calls request = (request, calls + 1)

endless-Refused_example : Refused echo 0 no_chains 0 (record { dev = fresh; memory = looped })
endless-Refused_example =
    endless-Refused echo (λ i. i ≡ 0) 0 no_chains 0 (record { dev = fresh; memory = looped })
      (record { placed = two-IsPlaced; region = omega arith; inside = omega arith })
      looped-IsEndless refl

two_cycle-Refused_example :
    (m' : SharedMem) × (two_cycle two sample ≡ some m')
    × Refused echo 0 no_chains 0 (record { dev = fresh; memory = m' })
two_cycle-Refused_example =
    two_cycle-Refused echo no_chains 0 fresh sample sample-HasRings (omega arith)

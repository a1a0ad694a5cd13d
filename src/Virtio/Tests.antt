-- ===== src/Virtio/Tests.antt =====
-- The theorems on chains and on `process` at the sample queue.
use systems_study.Prelude.{
  ℕ, suc, ◌+◌, ◌≤◌, ◌<◌, ◌≡◌, refl, arith, ◌∙◌, ap, true, some, List, [], ◌∷◌,
}
use systems_study.Prelude.Result.{ok}
use systems_study.Prelude.Word.{u32_mod, from_le_bytes}
use systems_study.Virtio.Mem.{slice}
use systems_study.Virtio.Layout.{Descriptor, has_next, is_write_only, is_indirect}
use systems_study.Virtio.Layout.Placement.{desc_lem}
use systems_study.Virtio.Sample.{two, sample, request, response, two-IsPlaced}
use systems_study.Virtio.Chain.{Gathered, collect}
use systems_study.Virtio.Chain.Entry.{entry, read_descriptor_ok}
use systems_study.Virtio.Chain.Legal.{EntryAt, Linked, last, link, IsLegal}
use systems_study.Virtio.Chain.Accept.{gathered, bytes, collect_legal, collect_sound, collect_total}
use systems_study.Virtio.Device.{Device, World}

first : entry sample 0 ≡ request
unfolding from_le_bytes slice
first = refl

second : entry sample 16 ≡ response
unfolding from_le_bytes slice
second = refl

at_0 : EntryAt sample two 0 request
at_0 = (
  0,
  desc_lem two-IsPlaced 0 (omega arith),
  read_descriptor_ok sample 0 (omega arith) (omega arith) ∙ ap ok first,
)

at_1 : EntryAt sample two 1 response
at_1 = (
  16,
  desc_lem two-IsPlaced 1 (omega arith),
  read_descriptor_ok sample 16 (omega arith) (omega arith) ∙ ap ok second,
)

sample-Linked : Linked sample two 0 (request ∷ response ∷ [])
unfolding has_next
sample-Linked = link 0 request (response ∷ []) at_0 refl (last 1 response at_1 refl)

sample-IsLegal : IsLegal 2 (request ∷ response ∷ [])
unfolding is_write_only is_indirect
sample-IsLegal = record {
  short = omega arith;
  small = omega arith;
  ordered = (λ w. cc, (λ w. tt, tt));
  direct = (refl, (refl, tt));
}

collect_legal_example : collect sample two 0 ≡ some (gathered (request ∷ response ∷ []))
collect_legal_example =
    collect_legal sample two 0 (request ∷ response ∷ []) sample-Linked sample-IsLegal

collect_sound_example :
    (ds : List Descriptor) × Linked sample two 0 ds
    × IsLegal 2 ds
    × (gathered (request ∷ response ∷ []) ≡ gathered ds)
collect_sound_example =
    collect_sound sample two 0 (gathered (request ∷ response ∷ [])) collect_legal_example refl

collect_total_example :
    (g : Gathered) × (collect sample two 0 ≡ some g)
    × (g.descriptors ≤ 2)
    × (bytes g.readable + bytes g.writable < u32_mod)
collect_total_example = collect_total sample two 0

abbrev idle : Device
idle = record { layout = two; next_avail = 0; next_used = 0; num_added = 0; event_idx = true }

abbrev world : World
world = record { dev = idle; memory = sample }

-- A device that counts its calls and echoes the request.
abbrev echo : ℕ → List ℕ → List ℕ × ℕ
echo calls req = (req, suc calls)

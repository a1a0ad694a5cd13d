-- ===== src/Uffd/Restore/Tests.antt =====
-- Tests of demand paging, and instances of its theorems.
use systems_study.Prelude.{ℕ, ◌+◌, ◌-◌, ◌/◌, ◌%◌, ◌≡◌, refl, ap, ◌∙◌, arith, false, some}
use systems_study.Bench.Stats.{sort_unstable}
use systems_study.Uffd.Handler.{page, HandlerStats, Handler}
use systems_study.Uffd.Handler.Turn.{IsSetUp}
use systems_study.Uffd.Restore.{dedup, distinct, demo_pages, demo_order, verified, demo}
use systems_study.Uffd.Restore.Image.{image_at}
use systems_study.Uffd.Restore.Demand.{demo_lem, HoldsImage}
use systems_study.Uffd.Restore.Machine.{memory_paging, memory-IsKernel, handler, fresh, src_at}

abbrev pager : Handler
pager = handler demo_pages 1 false

pager-IsSetUp : IsSetUp pager
pager-IsSetUp = record {
  aligned = refl;
  region_fits = omega arith;
  image_fits = omega arith;
  batched = omega arith;
}

pager-HoldsImage : HoldsImage memory_paging memory-IsKernel pager pager-IsSetUp
pager-HoldsImage i h =
    let e : 0 + i / page ≡ (src_at + i - src_at) / page = omega arith in
    image_at 0 demo_pages i h ∙ ap (λ (x : ℕ). some (x % 256)) e

demo_lem_example :
    (s : HandlerStats) × (demo memory_paging pager 1 demo_order fresh ≡ verified s)
    × (s.faults ≡ distinct demo_order)
    × (s.pages_installed ≡ distinct demo_order)
demo_lem_example =
    demo_lem memory_paging memory-IsKernel pager pager-IsSetUp 0 refl pager-HoldsImage demo_order
      fresh (omega arith) (omega arith) refl (λ q l. refl)

-- Six pages among the eight touches.
distinct_test : distinct demo_order ≡ 6
unfolding distinct dedup sort_unstable
distinct_test = refl

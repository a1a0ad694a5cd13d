-- ===== src/Uffd/Sweep/Rounds.antt =====
-- How many faults the rounds of a configuration count.
use systems_study.Prelude.{ℕ, zero, suc, ◌+◌, ◌*◌, ◌≤◌, ◌<◌, ◌≡◌, refl, ap, ◌∙◌, arith, none}
use native.Mathlib.Nat.{mul-le-mul_left, mul-le-mul_right, suc-mul}
use native.Mathlib.Decide.{dec_lt}
use systems_study.Prelude.Result.{Result, ok}
use systems_study.Prelude.Word.{u64_mod}
use systems_study.Uffd.Handler.{HandlerStats, no_stats, Handler}
use systems_study.Uffd.Handler.Kernel.{running, Paging, IsKernel}
use systems_study.Uffd.Handler.Turn.{IsSetUp, page_at}
use systems_study.Uffd.Sweep.Batches.{Walked, walk_lem}
use systems_study.Uffd.Sweep.{swept, walk, rounds, run_config, next_round, after_reset}

-- At most one number of batches covers the pages without a batch to spare.
batches_le : (b n f f' : ℕ) → f * b < n + b → n ≤ f' * b → f ≤ f'
batches_le b n f f' l m = elim (dec_lt f' f) [
  | yes lt ↦ absurd (omega (arith, suc-mul f' b, mul-le-mul_right b lt))
  | no ge ↦ omega arith
]

module _ {K : Type 0} (g : Paging K) (kernel : IsKernel g) (reset : K → Result ℕ (Unit {0}) × K)
    (h : Handler) (setup : IsSetUp h) (fuel : ℕ) where
  -- `madvise` with `MADV_DONTNEED` succeeds, and empties the region.
  abbrev pub Empties : Type 0
  Empties =
      (k : K)
      → g.phase k ≡ running
      → (k' : K) × (reset k ≡ (ok tt, k'))
        × (g.phase k' ≡ running)
        × ((q : ℕ) → q < h.region_pages → g.look k' (page_at h q) ≡ none)

  module _ (empties : Empties) (f : ℕ) (covered : h.region_pages ≤ f * h.batch_pages)
      (needed : f * h.batch_pages < h.region_pages + h.batch_pages) where
    round_lem :
        (s : HandlerStats) (k : K)
        → s.faults + h.region_pages < u64_mod
        → s.pages_installed + h.region_pages < u64_mod
        → g.phase k ≡ running
        → (s' : HandlerStats) × (k' : K) × (after_reset g reset h
              (suc fuel)
              (walk g reset h (suc fuel) 0 h.region_pages)
              s
              (reset k)
            ≡ (swept s', k'))
          × (g.phase k' ≡ running)
          × (s'.faults ≡ s.faults + f)
          × (s'.pages_installed ≡ s.pages_installed + h.region_pages)
    round_lem s k few small runs =
        let (k1, r, runs1, gone) = empties k runs in
        let more = setup.batched in
        let start : Walked g kernel reset h setup fuel 0 0 s s k1 = record {
          runs = runs1;
          reached = omega arith;
          covered = omega arith;
          needed = omega arith;
          faults = omega arith;
          pages_installed = omega arith;
          present = λ q l. absurd (omega arith);
          absent = λ q l m. gone q m;
        } in
        let (s', k', f', e, w) =
          walk_lem g kernel reset h setup fuel s few small h.region_pages 0 0 s k1 (omega arith)
            start in
        let same : f' ≡ f = omega (
          arith,
          w.covered,
          w.needed,
          batches_le h.batch_pages h.region_pages f f' needed w.covered,
          batches_le h.batch_pages h.region_pages f' f w.needed covered,
        ) in
        (
          s',
          k',
          rw r e,
          w.runs,
          omega (arith, w.faults),
          omega (arith, w.pages_installed, w.covered),
        )

    batches_few : f ≤ h.region_pages
    batches_few = elim (dec_lt h.region_pages f) [
      | yes lt ↦ absurd (
          omega (
            arith,
            needed,
            setup.batched,
            suc-mul h.region_pages h.batch_pages,
            mul-le-mul_right h.batch_pages lt,
            mul-le-mul_left h.region_pages setup.batched,
          ))
      | no ge ↦ omega arith
    ]

    rounds_lem :
        (n : ℕ) (s : HandlerStats) (k : K)
        → s.faults + n * h.region_pages < u64_mod
        → s.pages_installed + n * h.region_pages < u64_mod
        → g.phase k ≡ running
        → (s' : HandlerStats) × (k' : K) × (rounds g reset h (suc fuel) n s k ≡ (swept s', k'))
          × (s'.faults ≡ s.faults + n * f)
          × (s'.pages_installed ≡ s.pages_installed + n * h.region_pages)
    unfolding rounds
    rounds_lem zero s k few small runs = (s, k, refl, omega arith, omega arith)
    rounds_lem (suc n) s k few small runs =
        let grow = suc-mul n h.region_pages in
        let grow_f = suc-mul n f in
        let least = batches_few in
        let (s1, k1, e1, runs1, f1, p1) = round_lem s k (omega arith) (omega arith) runs in
        let (s2, k2, e2, f2, p2) = rounds_lem n s1 k1 (omega arith) (omega arith) runs1 in
        (
          s2,
          k2,
          ap (next_round g reset h (suc fuel) (rounds g reset h (suc fuel) n)) e1 ∙ e2,
          omega arith,
          omega arith,
        )

    -- A configuration of any batch size ends: in each round every batch faults once and every page is
    -- installed once, so that `n` rounds count n * f faults, for the least `f` whose batches cover the
    -- region, and no load hangs, no copy meets an installed page and no counter wraps.
    pub run_config_lem :
        (n : ℕ) (k : K)
        → n * h.region_pages < u64_mod
        → g.phase k ≡ running
        → (s : HandlerStats) × (k' : K) × (run_config g reset h (suc fuel) n k ≡ (swept s, k'))
          × (s.faults ≡ n * f)
          × (s.pages_installed ≡ n * h.region_pages)
    unfolding run_config
    run_config_lem n k small runs =
        let (s, k', e, f1, p1) = rounds_lem n no_stats k (omega arith) (omega arith) runs in
        (s, k', e, omega arith, omega arith)

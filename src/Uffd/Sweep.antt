-- ===== src/Uffd/Sweep.antt =====
-- rung-03-uffd/toy-uffd-raw/src/main.rs, `run_config` with a handler: the region is emptied and
-- walked page by page, some number of times. The durations are left out, and so is the thread's
-- pinning. `reset` is `madvise`, a parameter.
pub mod Batches
pub mod Rounds
mod Tests
use systems_study.Prelude.{ℕ, zero, suc, Option, none, some}
use systems_study.Prelude.Result.{Result, ok, err}
use systems_study.Uffd.Handler.{HandlerStats, no_stats, Handler}
use systems_study.Uffd.Handler.Kernel.{Paging}
use systems_study.Uffd.Restore.{touch}

-- How a configuration ends: with what the handler counted, with the error of the system call, or
-- with a load that never returns.
pub data Swept : Type 0 where
  swept : HandlerStats → Swept
  reset_failed : ℕ → Swept
  stuck : ℕ → Swept

module _ {K : Type 0} (g : Paging K) (reset : K → Result ℕ (Unit {0}) × K) (h : Handler)
    (fuel : ℕ) where
  abbrev pub moved : ℕ → (HandlerStats → K → Swept × K) → Option ℕ × HandlerStats × K → Swept × K
  moved p rest (none, s, k) = (stuck p, k)
  moved p rest (some b, s, k) = rest s k

  -- `for p in 0..BENCH_PAGES`, with `n` pages to go.
  pub walk : ℕ → ℕ → HandlerStats → K → Swept × K
  walk p zero s k = (swept s, k)
  walk p (suc n) s k = moved p (walk (suc p) n) (touch g h fuel p s k)

  abbrev pub next_round : (HandlerStats → K → Swept × K) → Swept × K → Swept × K
  next_round rest (swept s, k) = rest s k
  next_round rest (reset_failed e, k) = (reset_failed e, k)
  next_round rest (stuck p, k) = (stuck p, k)

  abbrev pub after_reset :
      (HandlerStats → K → Swept × K) → HandlerStats → Result ℕ (Unit {0}) × K → Swept × K
  after_reset rest s (ok u, k) = rest s k
  after_reset rest s (err e, k) = (reset_failed e, k)

  pub rounds : ℕ → HandlerStats → K → Swept × K
  unfolding walk
  rounds zero s k = (swept s, k)
  rounds (suc n) s k = next_round (rounds n) (after_reset (walk 0 h.region_pages) s (reset k))

  pub run_config : ℕ → K → Swept × K
  unfolding rounds
  run_config n k = rounds n no_stats k

-- ===== src/Uffd/Restore.antt =====
-- rung-03-uffd/toy-uffd-raw/src/main.rs, `demo`, and `Region::touch` of uffd.rs: pages are restored
-- on demand, in a given order; the first byte of each touched page and the number of faults are
-- checked. While a load waits for its page, the handler's thread makes a pass.
pub mod Distinct
pub mod Image
pub mod Demand
pub mod Machine
mod Tests
use systems_study.Prelude.{
  ℕ, zero, suc, ◌+◌, ◌*◌, ◌%◌, Bool, true, false, ◌==◌, if◌then◌else◌, Option, none, some, List, [],
  ◌∷◌, ◌++◌, length, replicate,
}
use systems_study.Bench.Stats.{sort_unstable}
use systems_study.Uffd.Handler.{page, HandlerStats, no_stats, Handler, Control, turn}
use systems_study.Uffd.Handler.Kernel.{Paging}

-- Page `p` of the image is filled with the byte `p`.
unfoldable pub image_from : ℕ → ℕ → List ℕ
image_from p zero = []
image_from p (suc n) = replicate page (p % 256) ++ image_from (suc p) n

-- `dedup`: of equal neighbours one is kept.
unfoldable pub keep : ℕ → List ℕ → List ℕ
keep a [] = a ∷ []
keep a (b ∷ l) = if a == b then b ∷ l else a ∷ b ∷ l

unfoldable pub dedup : List ℕ → List ℕ
unfolding keep
dedup [] = []
dedup (a ∷ l) = keep a (dedup l)

unfoldable pub distinct : List ℕ → ℕ
unfolding dedup
distinct order = length (dedup (sort_unstable order))

-- How the touches end: all bytes as expected, another byte on a page, or a load that never returns.
pub data Touches : Type 0 where
  read_all : HandlerStats → Touches
  wrong_page hung : ℕ → Touches

pub data Demo : Type 0 where
  verified : HandlerStats → Demo
  failed : Touches → Demo
  wrong_faults : ℕ → ℕ → Demo

abbrev pub demo_pages : ℕ
demo_pages = 64

abbrev pub demo_order : List ℕ
demo_order = 7 ∷ 0 ∷ 63 ∷ 31 ∷ 7 ∷ 32 ∷ 1 ∷ 31 ∷ []

module _ {K : Type 0} (g : Paging K) (h : Handler) (fuel : ℕ) where
  abbrev pub again : ℕ → Control × HandlerStats × K → Option ℕ × HandlerStats × K
  again a (c, s, k) = (g.look k a, s, k)

  abbrev pub load : ℕ → HandlerStats → K → Option ℕ → Option ℕ × HandlerStats × K
  load a s k (some b) = (some b, s, k)
  load a s k none = again a (turn g.sys h fuel s (g.fault a k))

  -- `none` where the load still waits.
  unfoldable pub touch : ℕ → HandlerStats → K → Option ℕ × HandlerStats × K
  touch p s k = let a = h.region_start + p * page in load a s k (g.look k a)

  -- The loop over the pages; the handler is stopped at a wrong byte.
  abbrev pub checked :
      ℕ → (HandlerStats → K → Touches × K) → Option ℕ × HandlerStats × K → Touches × K
  checked p rest (none, s, k) = (hung p, k)
  checked p rest (some b, s, k) = if b == p % 256 then rest s k else (wrong_page p, k)

  pub touch_all : List ℕ → HandlerStats → K → Touches × K
  unfolding touch
  touch_all [] s k = (read_all s, k)
  touch_all (p ∷ order) s k = checked p (touch_all order) (touch p s k)

  -- What is made of the touches: each distinct page must have faulted once.
  pub compare_faults : List ℕ → Touches → Demo
  unfolding distinct
  compare_faults order (read_all s) =
      if s.faults == distinct order then verified s else wrong_faults (distinct order) s.faults
  compare_faults order (wrong_page p) = failed (wrong_page p)
  compare_faults order (hung p) = failed (hung p)

  pub demo : List ℕ → K → Demo
  unfolding compare_faults touch_all
  demo order k = compare_faults order (touch_all order no_stats k).0

-- ===== src/Uffd/Sweep/Batches.antt =====
-- A walk over the region faults once for each batch.
use systems_study.Prelude.{
  ℕ, zero, suc, ◌+◌, ◌*◌, ◌≤◌, ◌<◌, ◌≡◌, refl, ap, ◌∙◌, arith, Option, none, some, min,
}
use mathlib.Core.Path.{subst}
use native.Mathlib.Nat.{mul-le-mul_left, suc-mul}
use native.Mathlib.Decide.{dec_lt}
use systems_study.Prelude.Result.{Result}
use systems_study.Prelude.Word.{u64_mod}
use systems_study.Uffd.Handler.{page, HandlerStats, Handler}
use systems_study.Uffd.Handler.Kernel.{running, Paging, IsKernel}
use systems_study.Uffd.Handler.Turn.{IsSetUp, page_at, turn_lem}
use systems_study.Uffd.Restore.{touch}
use systems_study.Uffd.Sweep.{swept, walk, moved}

module _ {K : Type 0} (g : Paging K) (kernel : IsKernel g) (reset : K → Result ℕ (Unit {0}) × K)
    (h : Handler) (setup : IsSetUp h) (fuel : ℕ) where
  -- Before page `p` of a walk that had `f` faults, the batches of these are installed.
  pub record Walked (p f : ℕ) (s0 s : HandlerStats) (k : K) : Type 0 where
    pub runs : g.phase k ≡ running
    pub reached : p ≤ h.region_pages
    pub covered : p ≤ f * h.batch_pages
    pub needed : f * h.batch_pages < p + h.batch_pages
    pub faults : s.faults ≡ s0.faults + f
    pub pages_installed :
        s.pages_installed ≡ s0.pages_installed + min (f * h.batch_pages) h.region_pages
    pub present :
        (q : ℕ)
        → q < min (f * h.batch_pages) h.region_pages
        → g.look k (page_at h q) ≡ some (g.image (h.src + q * page))
    pub absent :
        (q : ℕ)
        → min (f * h.batch_pages) h.region_pages ≤ q
        → q < h.region_pages
        → g.look k (page_at h q) ≡ none

  -- A page of a batch that is there.
  walk_on :
      (p f : ℕ) (s0 s : HandlerStats) (k : K)
      → p < h.region_pages
      → p < f * h.batch_pages
      → Walked p f s0 s k
      → (touch g h (suc fuel) p s k ≡ (some (g.image (h.src + p * page)), s, k))
        × Walked (suc p) f s0 s k
  unfolding touch
  walk_on p f s0 s k inside l w = (
    rw (w.present p (omega arith), touch) refl,
    record {
      runs = w.runs;
      reached = omega arith;
      covered = omega arith;
      needed = let n = w.needed in omega arith;
      faults = w.faults;
      pages_installed = w.pages_installed;
      present = w.present;
      absent = w.absent;
    },
  )

  -- The first page of the next batch.
  walk_fault :
      (p f : ℕ) (s0 s : HandlerStats) (k : K)
      → p < h.region_pages
      → s0.faults + h.region_pages < u64_mod
      → s0.pages_installed + h.region_pages < u64_mod
      → f * h.batch_pages ≡ p
      → Walked p f s0 s k
      → (s' : HandlerStats) × (k' : K) × (touch g h (suc fuel) p s k
          ≡ (some (g.image (h.src + p * page)), s', k'))
        × Walked (suc p) (suc f) s0 s' k'
  unfolding touch
  walk_fault p f s0 s k inside few small at w =
      let a = page_at h p in
      let next : suc f * h.batch_pages ≡ p + h.batch_pages =
        omega (arith, suc-mul f h.batch_pages) in
      let more = setup.batched in
      let below : f ≤ p = omega (arith, mul-le-mul_left f more) in
      let k1 = g.fault a k in
      let same = λ (b : ℕ). kernel.parks_only a b k in
      let gone : g.look k a ≡ none = w.absent p (omega arith) inside in
      let (s', k', turned, served) =
        turn_lem g kernel h setup p inside fuel s k1 (kernel.parks a k w.runs gone)
          (λ q l m. same (page_at h q) ∙ w.absent q (omega arith) (omega arith)) in
      let there = served.installed p (omega arith) (omega arith) in
      (
        s',
        k',
        rw (gone, touch) (rw turned (ap (λ (b : Option ℕ). (b, s', k')) there)),
        record {
          runs = served.wakes;
          reached = omega arith;
          covered = omega arith;
          needed = omega arith;
          faults = let e = w.faults in let d = served.one_fault in omega arith;
          pages_installed = let e = w.pages_installed in let d = served.all_pages in omega arith;
          present = λ q l. elim (dec_lt q p) [
            | yes lt ↦ served.before q lt ∙ same (page_at h q) ∙ w.present q (omega arith)
            | no ge ↦ served.installed q (omega arith) (omega arith)
          ];
          absent = λ q l m.
              served.after q (omega arith) ∙ same (page_at h q) ∙ w.absent q (omega arith) m;
        },
      )

  module _ (s0 : HandlerStats) (few : s0.faults + h.region_pages < u64_mod)
      (small : s0.pages_installed + h.region_pages < u64_mod) where
    pub walk_lem :
        (n p f : ℕ) (s : HandlerStats) (k : K)
        → p + n ≡ h.region_pages
        → Walked p f s0 s k
        → (s' : HandlerStats) × (k' : K) × (f' : ℕ) × (walk g reset h (suc fuel) p n s k
            ≡ (swept s', k'))
          × Walked h.region_pages f' s0 s' k'
    unfolding walk
    walk_lem zero p f s k e w =
        (s, k, f, refl, subst (λ (x : ℕ). Walked x f s0 s k) (omega arith) w)
    walk_lem (suc n) p f s k e w = elim (dec_lt p (f * h.batch_pages)) [
      | yes l ↦
          let (t, w') = walk_on p f s0 s k (omega arith) l w in
          let (s', k', f', r, done) = walk_lem n (suc p) f s k (omega arith) w' in
          (
            s',
            k',
            f',
            ap (moved g reset h (suc fuel) p (walk g reset h (suc fuel) (suc p) n)) t ∙ r,
            done,
          )
      | no m ↦
          let c = w.covered in
          let (s1, k1, t, w') = walk_fault p f s0 s k (omega arith) few small (omega arith) w in
          let (s', k', f', r, done) = walk_lem n (suc p) (suc f) s1 k1 (omega arith) w' in
          (
            s',
            k',
            f',
            ap (moved g reset h (suc fuel) p (walk g reset h (suc fuel) (suc p) n)) t ∙ r,
            done,
          )
    ]

-- ===== src/Uffd/Handler/Turn.antt =====
-- One pass of the handler's loop while a thread waits for a page.
use systems_study.Prelude.{
  ℕ, suc, ◌+◌, ◌-◌, ◌*◌, ◌/◌, ◌%◌, ◌≤◌, ◌<◌, ◌≡◌, refl, ap, ◌∙◌, arith, min, true, ◌==◌,
  if◌then◌else◌, Option, none, some, Bool-cases, inl, inr,
}
use systems_study.Prelude.Result.{Result, ok}
use systems_study.Prelude.Word.{u64_mod, add64, mul64}
use systems_study.Uffd.{
  UffdMsg, UffdioCopy, IoError, spun, received, read_event, spin_round, read_event_spin, copy,
  msg_size,
}
use systems_study.Uffd.Spin
use systems_study.Uffd.Spin.{spin-stop}
use systems_study.Uffd.Handler.{
  page, uffd_event_pagefault, HandlerStats, Handler, sub64, count_fault, next, serve, handle,
  at_once, turn,
}
use systems_study.Uffd.Handler.Kernel.{running, parked, fetched, Paging, IsKernel}

-- The region and the image lie in the address space, the region on a page boundary.
pub record IsSetUp (h : Handler) : Type 0 where
  pub aligned : h.region_start % page ≡ 0
  pub region_fits : h.region_start + h.region_pages * page < u64_mod
  pub image_fits : h.src + h.region_pages * page < u64_mod
  pub batched : 0 < h.batch_pages

abbrev pub page_at : Handler → ℕ → ℕ
page_at h p = h.region_start + p * page

-- How many pages a fault at a page installs.
abbrev pub run_at : Handler → ℕ → ℕ
run_at h p = min h.batch_pages (h.region_pages - p)

module _ {K : Type 0} (g : Paging K) (kernel : IsKernel g) (h : Handler) where
  abbrev event_of : ℕ → K → Option (Result IoError (Option UffdMsg)) × K
  event_of fuel k = if h.spin then read_event_spin g.sys fuel k else at_once (read_event g.sys 50 k)

  module _ (a : ℕ) (k k' : K) (msg : UffdMsg) (e : g.phase k ≡ parked a)
      (r : g.sys.read k ≡ (ok (msg_size, msg), k')) where
    spins_once : spin_round g.sys k ≡ (some (ok (some msg)), k')
    unfolding spin_round
    spins_once = rw (kernel.flag a k e, spin_round) (rw (r, spun))

    spins : (fuel : ℕ) → read_event_spin g.sys (suc fuel) k ≡ (some (ok (some msg)), k')
    spins fuel = spin-stop g.sys fuel k k' (ok (some msg)) spins_once

    polls : at_once (read_event g.sys 50 k) ≡ (some (ok (some msg)), k')
    unfolding read_event
    polls = let (n, ready) = kernel.ready a 50 k e in rw (ready, read_event) (rw (r, received))

    -- Polling or spinning, the handler gets the message.
    event_of_lem : (fuel : ℕ) → event_of (suc fuel) k ≡ (some (ok (some msg)), k')
    event_of_lem fuel = elim (Bool-cases h.spin) [ inl s ↦ rw s (spins fuel) | inr s ↦ rw s polls ]

module _ (h : Handler) (setup : IsSetUp h) (p : ℕ) (inside : p < h.region_pages) where
  -- The arithmetic of `serve`.
  addr_lem : (a : ℕ) → a / page ≡ page_at h p / page → a - a % page ≡ page_at h p
  addr_lem a e = let open_aligned = setup.aligned in omega arith

  number_lem : sub64 (page_at h p) h.region_start / page ≡ p
  number_lem = let fits = setup.region_fits in omega arith

  run_lem : min h.batch_pages (sub64 h.region_pages p) ≡ run_at h p
  run_lem = let fits = setup.region_fits in ap (min h.batch_pages) (omega arith)

  len_lem : mul64 (run_at h p) page ≡ run_at h p * page
  len_lem = let fits = setup.region_fits in omega arith

  src_lem : add64 h.src (mul64 p page) ≡ h.src + p * page
  src_lem = let fits = setup.image_fits in omega arith

module _ {K : Type 0} (g : Paging K) (kernel : IsKernel g) (h : Handler) (setup : IsSetUp h) (p : ℕ)
    (inside : p < h.region_pages) where
  -- The pages that a pass installs for page `p`.
  abbrev Installed : K → K → Type 0
  Installed k k' =
      ((q : ℕ)
        → p ≤ q
        → q < p + run_at h p
        → g.look k' (page_at h q) ≡ some (g.image (h.src + q * page)))
      × ((q : ℕ) → q < p → g.look k' (page_at h q) ≡ g.look k (page_at h q))
      × ((q : ℕ) → p + run_at h p ≤ q → g.look k' (page_at h q) ≡ g.look k (page_at h q))

  abbrev pub Absent : K → Type 0
  Absent k = (q : ℕ) → p ≤ q → q < p + run_at h p → g.look k (page_at h q) ≡ none

  abbrev request : UffdioCopy
  request = Spin.request (page_at h p) (h.src + p * page) (run_at h p * page) true

  Absent-rest :
      (k : K)
      → Absent k
      → (i : ℕ) → i * page < request.len
      → g.look k (request.dst + i * page) ≡ none
  Absent-rest k absent i l =
      let e : request.dst + i * page ≡ page_at h (p + i) = omega arith in
      rw e (absent (p + i) (omega arith) (omega arith))

  copy_lem :
      (k : K)
      → g.phase k ≡ fetched (page_at h p)
      → Absent k
      → (k' : K) × (copy g.sys (page_at h p) (h.src + p * page) (run_at h p * page) true k
          ≡ (ok (run_at h p * page), k'))
        × (g.phase k' ≡ running)
        × Installed k k'
  unfolding copy
  copy_lem k e absent =
      let fits = setup.region_fits in
      let some_pages = setup.batched in
      let al = setup.aligned in
      let (k', done, wakes, new, below, above) =
        kernel.installs (page_at h p) request k e refl (omega arith) (omega arith) (omega arith)
          (omega arith) (Absent-rest k absent) in
      (
        k',
        rw done,
        wakes,
        (
          (λ q l m.
              let i = (q - p) * page in
              let at : page_at h p + i ≡ page_at h q = omega arith in
              let from : h.src + p * page + i ≡ h.src + q * page = omega arith in
              rw (← at, ← from) (new i (omega arith))),
          (λ q l. below (page_at h q) (omega arith)),
          (λ q l. above (page_at h q) (omega arith)),
        ),
      )

  -- What a pass that installs pages leaves.
  pub record Served (s s' : HandlerStats) (k k' : K) : Type 0 where
    pub wakes : g.phase k' ≡ running
    pub one_fault : s'.faults ≡ add64 s.faults 1
    pub all_pages : s'.pages_installed ≡ add64 s.pages_installed (run_at h p)
    pub installed :
        (q : ℕ)
        → p ≤ q
        → q < p + run_at h p
        → g.look k' (page_at h q) ≡ some (g.image (h.src + q * page))
    pub before : (q : ℕ) → q < p → g.look k' (page_at h q) ≡ g.look k (page_at h q)
    pub after : (q : ℕ) → p + run_at h p ≤ q → g.look k' (page_at h q) ≡ g.look k (page_at h q)

  serve_lem :
      (msg : UffdMsg) (s : HandlerStats) (k : K)
      → msg.pagefault_address / page ≡ page_at h p / page
      → g.phase k ≡ fetched (page_at h p)
      → Absent k
      → (s' : HandlerStats) × (k' : K) × (serve g.sys h msg s k ≡ (next, s', k'))
        × (s' ≡ record s { pages_installed = add64 s.pages_installed (run_at h p) })
        × (g.phase k' ≡ running)
        × Installed k k'
  unfolding serve
  serve_lem msg s k at e absent =
      let (k', done, wakes, parts) = copy_lem k e absent in
      let whole : run_at h p * page / page ≡ run_at h p = omega arith in
      (
        record s { pages_installed = add64 s.pages_installed (run_at h p) },
        k',
        rw (
          addr_lem h setup p inside msg.pagefault_address at,
          number_lem h setup p inside,
          run_lem h setup p inside,
          len_lem h setup p inside,
          src_lem h setup p inside,
          done,
          whole,
        ),
        refl,
        wakes,
        parts,
      )

  faults-count_fault :
      (msg : UffdMsg) (s : HandlerStats) → (count_fault msg s).faults ≡ add64 s.faults 1
  unfolding count_fault
  faults-count_fault msg s = refl

  pages-count_fault :
      (msg : UffdMsg) (s : HandlerStats)
      → add64 (count_fault msg s).pages_installed (run_at h p)
        ≡ add64 s.pages_installed (run_at h p)
  unfolding count_fault
  pages-count_fault msg s = refl

  -- A page fault is served.
  handle_fault :
      (msg : UffdMsg) (s : HandlerStats) (k : K)
      → msg.event ≡ uffd_event_pagefault
      → handle g.sys h s (some (ok (some msg)), k) ≡ serve g.sys h msg (count_fault msg s) k
  unfolding handle
  handle_fault msg s k e =
      let test : (msg.event == uffd_event_pagefault) ≡ true = ground arith in rw test

  -- A pass that finds the flag clear and a message handles it.
  turn_handles :
      (fuel : ℕ) (s : HandlerStats) (k k' : K) (msg : UffdMsg)
      → g.phase k ≡ parked (page_at h p)
      → g.sys.read k ≡ (ok (msg_size, msg), k')
      → turn g.sys h (suc fuel) s k ≡ handle g.sys h s (some (ok (some msg)), k')
  unfolding turn
  turn_handles fuel s k k' msg e r =
      rw (kernel.flag (page_at h p) k e, turn)
        (ap (handle g.sys h s) (event_of_lem g kernel h (page_at h p) k k' msg e r fuel))

  pub turn_lem :
      (fuel : ℕ) (s : HandlerStats) (k : K)
      → g.phase k ≡ parked (page_at h p)
      → Absent k
      → (s' : HandlerStats) × (k' : K) × (turn g.sys h (suc fuel) s k ≡ (next, s', k'))
        × Served s s' k k'
  turn_lem fuel s k e absent =
      let (msg, k1, got, is_fault, at, e1, same) = kernel.message (page_at h p) k e in
      let (s', k2, done, counted, wakes, (new, below, above)) =
        serve_lem msg (count_fault msg s) k1 at e1 (λ q l m. same (page_at h q) ∙ absent q l m) in
      (
        s',
        k2,
        turn_handles fuel s k k1 msg e got ∙ handle_fault msg s k1 is_fault ∙ done,
        record {
          wakes = wakes;
          one_fault = ap (λ (x : HandlerStats). x.faults) counted ∙ faults-count_fault msg s;
          all_pages =
              ap (λ (x : HandlerStats). x.pages_installed) counted ∙ pages-count_fault msg s;
          installed = new;
          before = λ q l. below q l ∙ same (page_at h q);
          after = λ q l. above q l ∙ same (page_at h q);
        },
      )

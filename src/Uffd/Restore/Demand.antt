-- ===== src/Uffd/Restore/Demand.antt =====
-- Demand paging of one page for each fault: the byte that is loaded is right, and a page faults once.
use systems_study.Prelude.{
  ℕ, suc, ◌+◌, ◌*◌, ◌%◌, ◌<◌, ◌≡◌, refl, ap, ◌∙◌, sym, arith, Bool, true, false, ltb, ◌==◌,
  if◌then◌else◌, Option, none, some, List, [], ◌∷◌, length, get_elem?, Bool-cases, inl, inr,
}
use mathlib.Core.Path.{subst}
use systems_study.Prelude.TextLaws.{All}
use systems_study.Prelude.Word.{u64_mod}
use systems_study.Bench.Stats.{sort_unstable}
use systems_study.Bench.Stats.Sorting.{count}
use systems_study.Uffd.Handler.{page, HandlerStats, no_stats, Handler}
use systems_study.Uffd.Handler.Kernel.{running, Paging, IsKernel}
use systems_study.Uffd.Handler.Turn.{IsSetUp, page_at, run_at, Served, turn_lem}
use systems_study.Uffd.Restore.{
  image_from, dedup, distinct, Touches, read_all, verified, touch, checked, touch_all,
  compare_faults, demo,
}
use systems_study.Uffd.Restore.Image.{
  image_page, lt_trichotomy, some_inj, expected, expected_again, expected_other, expected_self,
}
use systems_study.Uffd.Restore.Distinct.{distinct-cons, distinct_le, onto, distinct-onto}

none_distinct : 0 ≡ distinct []
unfolding distinct dedup
none_distinct = unfold sort_unstable in refl

module _ {K : Type 0} (g : Paging K) (kernel : IsKernel g) (h : Handler) (setup : IsSetUp h) where
  -- The image lies at its address.
  abbrev pub HoldsImage : Type 0
  HoldsImage =
      (i : ℕ)
      → i < h.region_pages * page
      → get_elem? (image_from 0 h.region_pages) i ≡ some (g.image (h.src + i))

  -- The pages that were touched are installed, and no others.
  pub record Resident (touched : List ℕ) (s : HandlerStats) (k : K) : Type 0 where
    pub runs : g.phase k ≡ running
    pub faults : s.faults ≡ distinct touched
    pub pages_installed : s.pages_installed ≡ distinct touched
    pub pages : (q : ℕ) → q < h.region_pages → g.look k (page_at h q) ≡ expected q touched

  module _ (fuel : ℕ) (one : h.batch_pages ≡ 1) (holds : HoldsImage) where
    image_byte : (q : ℕ) → q < h.region_pages → g.image (h.src + q * page) ≡ q % 256
    image_byte q l =
        let e = holds (q * page) (omega arith) in some_inj (sym e ∙ image_page h.region_pages q l)

    run_one : (p : ℕ) → p < h.region_pages → run_at h p ≡ 1
    run_one p l = rw one (omega arith)

    -- A page that was touched is read again; nothing else changes.
    Resident-again :
        (p : ℕ) (touched : List ℕ) (s : HandlerStats) (k : K)
        → ltb 0 (count p touched) ≡ true
        → Resident touched s k
        → Resident (p ∷ touched) s k
    Resident-again p touched s k e r = record {
      runs = r.runs;
      faults = ground (arith, r.faults, distinct-cons p touched);
      pages_installed = ground (arith, r.pages_installed, distinct-cons p touched);
      pages = λ q l. r.pages q l ∙ expected_again p q touched e;
    }

    -- What serving the first fault of a page leaves.
    Resident-Served :
        (p : ℕ) (touched : List ℕ) (s s' : HandlerStats) (k k1 k' : K) (inside : p < h.region_pages)
        → suc (length touched) < u64_mod
        → ltb 0 (count p touched) ≡ false
        → ((b : ℕ) → g.look k1 b ≡ g.look k b)
        → Resident touched s k
        → Served g kernel h setup p inside s s' k1 k'
        → Resident (p ∷ touched) s' k'
    Resident-Served p touched s s' k k1 k' inside small e same r served =
        let once = run_one p inside in
        let few = distinct_le touched in
        record {
          runs = served.wakes;
          faults = served.one_fault ∙ ground (arith, r.faults, distinct-cons p touched);
          pages_installed =
              served.all_pages ∙ ground (arith, r.pages_installed, distinct-cons p touched);
          pages = λ q l. elim (lt_trichotomy q p) [
            | inl lt ↦
                served.before q lt
                ∙ same (page_at h q)
                ∙ r.pages q l
                ∙ expected_other p q touched (λ d. omega arith)
            | inr (inl eq) ↦
                subst (λ (x : ℕ). g.look k' (page_at h x) ≡ expected x (p ∷ touched)) (sym eq)
                  (served.installed p (omega arith) (omega arith)
                    ∙ ap some (image_byte p inside)
                    ∙ expected_self p touched)
            | inr (inr gt) ↦
                served.after q (omega arith)
                ∙ same (page_at h q)
                ∙ r.pages q l
                ∙ expected_other p q touched (λ d. omega arith)
          ];
        }

    -- The first touch of a page faults.
    touch_first :
        (p : ℕ) (touched : List ℕ) (s : HandlerStats) (k : K)
        → p < h.region_pages
        → suc (length touched) < u64_mod
        → Resident touched s k
        → ltb 0 (count p touched) ≡ false
        → (s' : HandlerStats) × (k' : K) × (touch g h (suc fuel) p s k ≡ (some (p % 256), s', k'))
          × Resident (p ∷ touched) s' k'
    unfolding touch
    touch_first p touched s k inside small r e =
        let a = page_at h p in
        let absent : g.look k a ≡ none =
          r.pages p inside ∙ ap (λ (b : Bool). if b then some (p % 256) else none) e in
        let k1 = g.fault a k in
        let same = λ (b : ℕ). kernel.parks_only a b k in
        let once = run_one p inside in
        let (s', k', turned, served) =
          turn_lem g kernel h setup p inside fuel s k1 (kernel.parks a k r.runs absent)
            (λ q l m. let eq : q ≡ p = omega arith in rw eq (same a ∙ absent)) in
        let now = Resident-Served p touched s s' k k1 k' inside small e same r served in
        (
          s',
          k',
          rw (absent, touch)
              (rw turned (
                ap (λ (b : Option ℕ). (b, s', k'))
                  (now.pages p inside ∙ sym (expected_self p touched)))),
          now,
        )

    -- A touch reads the page's byte, and the page is installed then.
    touch_lem :
        (p : ℕ) (touched : List ℕ) (s : HandlerStats) (k : K)
        → p < h.region_pages
        → suc (length touched) < u64_mod
        → Resident touched s k
        → (s' : HandlerStats) × (k' : K) × (touch g h (suc fuel) p s k ≡ (some (p % 256), s', k'))
          × Resident (p ∷ touched) s' k'
    unfolding touch
    touch_lem p touched s k inside small r = elim (Bool-cases (ltb 0 (count p touched))) [
      | inl e ↦ (
        s,
        k,
        rw (r.pages p inside ∙ ap (λ (b : Bool). if b then some (p % 256) else none) e, touch) refl,
        Resident-again p touched s k e r,
      )
      | inr e ↦ touch_first p touched s k inside small r e
    ]

    right_page :
        (p : ℕ) (s : HandlerStats) (k : K) (rest : HandlerStats → K → Touches × K)
        → checked g h (suc fuel) p rest (some (p % 256), s, k) ≡ rest s k
    right_page p s k rest = let e : (p % 256 == p % 256) ≡ true = ground arith in rw e

    faults_agree :
        (order : List ℕ) (s : HandlerStats)
        → s.faults ≡ distinct order
        → compare_faults g h (suc fuel) order (read_all s) ≡ verified s
    unfolding compare_faults
    faults_agree order s e =
        let test : (s.faults == distinct order) ≡ true = ground arith in rw test

    touch_all_lem :
        (order touched : List ℕ) (s : HandlerStats) (k : K)
        → All (λ p. p < h.region_pages) order
        → length order + length touched < u64_mod
        → Resident touched s k
        → (s' : HandlerStats) × (k' : K) × (touch_all g h (suc fuel) order s k ≡ (read_all s', k'))
          × Resident (onto order touched) s' k'
    unfolding touch_all
    touch_all_lem [] touched s k inside small r = (s, k, refl, r)
    touch_all_lem (p ∷ order) touched s k inside small r =
        let (s1, k1, e, r1) = touch_lem p touched s k inside.0 (omega arith) r in
        let (s2, k2, e2, r2) = touch_all_lem order (p ∷ touched) s1 k1 inside.1 (omega arith) r1 in
        (
          s2,
          k2,
          ap (checked g h (suc fuel) p (touch_all g h (suc fuel) order)) e
              ∙ right_page p s1 k1 (touch_all g h (suc fuel) order)
              ∙ e2,
          r2,
        )

    -- Pages that are restored on demand from absent pages, one page for each fault, in any order that
    -- stays in the region, with repeated pages or none: the demonstration, which loads the first byte
    -- of each touched page and compares it with the page's byte of the image, finds none wrong and no
    -- load hangs; it ends with as many faults, and as many installed pages, as it touched distinct
    -- pages. The other bytes of the pages, and pages that are not touched, are not checked.
    pub demo_lem :
        (order : List ℕ) (k : K)
        → All (λ p. p < h.region_pages) order
        → length order < u64_mod
        → g.phase k ≡ running
        → ((q : ℕ) → q < h.region_pages → g.look k (page_at h q) ≡ none)
        → (s : HandlerStats) × (demo g h (suc fuel) order k ≡ verified s)
          × (s.faults ≡ distinct order)
          × (s.pages_installed ≡ distinct order)
    unfolding demo
    demo_lem order k inside small runs absent =
        let fresh : Resident [] no_stats k = record {
          runs = runs;
          faults = none_distinct;
          pages_installed = none_distinct;
          pages = absent;
        } in
        let (s, k', e, r) = touch_all_lem order [] no_stats k inside (omega arith) fresh in
        let faults = r.faults ∙ distinct-onto order in
        (s, rw e (faults_agree order s faults), faults, r.pages_installed ∙ distinct-onto order)

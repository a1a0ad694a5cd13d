-- ===== src/Uffd/Setup/Balance.antt =====
-- No path of the set-up of `demo` and of `run_config` leaves anything open but what it returns.

use systems_study.Prelude.{
  ℕ, ◌≡◌, refl, ap, ◌∙◌, Bool, true, ◌==◌, List, [], ◌∷◌, ◌++◌, append_assoc,
}
use systems_study.Prelude.Word.{mul64}
use systems_study.Prelude.Owned.{fd, mapped, Event, acquired, private_anonymous, Process}
use systems_study.Prelude.Owned.Tidy.{
  Tidy, Tidy-answered, Tidy-opened, Tidy-weaken, Tidy-require, Tidy-bind, Tidy-keeping,
}
use systems_study.Uffd.{register_missing}
use systems_study.Uffd.Handler.{page}
use systems_study.Uffd.Setup.{
  Uffd, Region, panic, UffdCalls, new, new_region, registered, map_for, open_for, prepare_demo,
  prepare_config,
}
use systems_study.Uffd.Setup.Opening.{Opened, new-Opened}

abbrev MappedAt : ℕ → List Event → Region → List Event → Type 0
MappedAt pages l r log =
    (log ≡ l ++ acquired (mapped r.ptr r.len) ∷ []) × (r.len ≡ mul64 pages page)

-- What the set-up of `demo` promises: it has acquired its descriptor and its region, and the region
-- has the pages asked for.
abbrev pub DemoReady : ℕ → List Event → Uffd × Region → List Event → Type 0
DemoReady pages l s log =
    (log ≡ l ++ acquired (fd s.0.raw) ∷ acquired (mapped s.1.ptr s.1.len) ∷ [])
    × (s.1.len ≡ mul64 pages page)

-- The same of `run_config`, which maps its region first.
abbrev pub ConfigReady : ℕ → List Event → Uffd × Region → List Event → Type 0
ConfigReady pages l s log =
    (log ≡ l ++ acquired (mapped s.1.ptr s.1.len) ∷ acquired (fd s.0.raw) ∷ [])
    × (s.1.len ≡ mul64 pages page)

module _ {K : Type 0} (sys : UffdCalls K) (l : List Event) where
  new-acquires :
      (non_blocking : Bool) (p : Process K)
      → p.log ≡ l
      → Tidy (λ u log. log ≡ l ++ acquired (fd u.0.raw) ∷ []) l (new sys non_blocking p)
  new-acquires non_blocking p e =
      Tidy-weaken (Opened sys non_blocking p) _ (new sys non_blocking p) e
        (λ u log h. h.0 ∙ ap (λ k. k ++ acquired (fd u.0.raw) ∷ []) e)
        (new-Opened sys non_blocking p)

  new_region-Tidy :
      (pages : ℕ) (p : Process K) → p.log ≡ l → Tidy (MappedAt pages l) l (new_region sys pages p)
  unfolding new_region
  new_region-Tidy pages p e =
      let (size, k) = sys.page_size p.kernel in
      let q : Process K = record p { kernel = k } in
      Tidy-require _ l (size == page) panic _ q e λ _.
        Tidy-opened _ (MappedAt pages l) l (λ ptr. mapped ptr (mul64 pages page)) q
          (sys.mmap (mul64 pages page) private_anonymous k) _ e λ ptr t _ e1. (e1, refl)

  registered-Tidy :
      (good : Uffd × Region → List Event → Type 0) (uffd : Uffd) (region : Region) (p : Process K)
      → p.log ≡ l
      → ((log : List Event) → log ≡ l → good (uffd, region) log)
      → Tidy good l (registered sys uffd region p)
  unfolding registered
  registered-Tidy good uffd region p e h =
      Tidy-answered _ good l p
        (register_missing (sys.channel uffd.raw) region.ptr region.len p.kernel) _ e
        λ _ q e'. h q.log e'

module _ {K : Type 0} (sys : UffdCalls K) (pages : ℕ) (l : List Event) where
  map_for-Tidy :
      (uffd : Uffd) (q : Process K)
      → q.log ≡ l ++ acquired (fd uffd.raw) ∷ []
      → Tidy (DemoReady pages l) (l ++ acquired (fd uffd.raw) ∷ []) (map_for sys pages uffd q)
  unfolding map_for
  map_for-Tidy u q e =
      Tidy-bind _ _ _ (new_region sys pages q) _ (new_region-Tidy sys _ pages q e) λ r t h.
        Tidy-keeping _ _ (mapped r.ptr r.len) (registered sys u r) t (
          registered-Tidy sys _ (DemoReady pages l) u r t h.0 λ log e'. (
            e' ∙ append_assoc l (acquired (fd u.raw) ∷ []) (acquired (mapped r.ptr r.len) ∷ []),
            h.1,
          ))

  open_for-Tidy :
      (r : Region) (q : Process K)
      → q.log ≡ l ++ acquired (mapped r.ptr r.len) ∷ []
      → r.len ≡ mul64 pages page
      → Tidy (ConfigReady pages l) (l ++ acquired (mapped r.ptr r.len) ∷ []) (open_for sys r q)
  unfolding open_for
  open_for-Tidy r q e size =
      Tidy-bind _ _ _ (new sys true q) _ (new-acquires sys _ true q e) λ u t h.
        Tidy-keeping _ _ (fd u.0.raw) (registered sys u.0 r) t (
          registered-Tidy sys _ (ConfigReady pages l) u.0 r t h λ log e'. (
            e' ∙ append_assoc l (acquired (mapped r.ptr r.len) ∷ []) (acquired (fd u.0.raw) ∷ []),
            size,
          ))

-- Whatever the kernel answers, the set-up of `demo` either returns the descriptor and a region of the
-- pages asked for, and then it has acquired just these two; or it stops with an error or a panic, and
-- then all that it had acquired is released again, the last one first.
pub prepare_demo-Tidy :
    {K : Type 0} (sys : UffdCalls K) (pages : ℕ) (p : Process K)
    → Tidy (DemoReady pages p.log) p.log (prepare_demo sys pages p)
unfolding prepare_demo
prepare_demo-Tidy sys pages p =
    Tidy-bind _ p.log _ (new sys true p) _ (new-acquires sys p.log true p refl) λ u q e.
      Tidy-keeping _ p.log (fd u.0.raw) (map_for sys pages u.0) q
        (map_for-Tidy sys pages p.log u.0 q e)

-- Whatever the kernel answers, the set-up of `run_config` with a handler either returns the
-- descriptor and a region of the pages asked for, and then it has acquired just these two; or it
-- stops with an error or a panic, and then all that it had acquired is released again, the last one
-- first.
pub prepare_config-Tidy :
    {K : Type 0} (sys : UffdCalls K) (pages : ℕ) (p : Process K)
    → Tidy (ConfigReady pages p.log) p.log (prepare_config sys pages p)
unfolding prepare_config
prepare_config-Tidy sys pages p =
    Tidy-bind _ p.log _ (new_region sys pages p) _ (new_region-Tidy sys p.log pages p refl) λ r q h.
      Tidy-keeping _ p.log (mapped r.ptr r.len) (open_for sys r) q
        (open_for-Tidy sys pages p.log r q h.0 h.1)

-- ===== src/Uffd/Topology/Choice.antt =====
-- What `Topology::detect` chooses.
use systems_study.Prelude.{
  ℕ, zero, suc, ◌+◌, ◌≤◌, ◌<◌, ◌≡◌, ◌≢◌, refl, arith, Bool, false, true, not, ◌&&◌, ◌==◌, Option,
  none, some, ◌++◌, ap, ◌↔◌, List, [], ◌∷◌, Bool-cases, inl, inr, ◌⊎◌,
}
use mathlib.Core.Path.{subst}
use native.Mathlib.Decide.{dec_lt}
use systems_study.Prelude.TextLaws.{All}
use systems_study.Uffd.Topology.{
  Placement, same_cpu, smt_sibling, other_core, cpu_for, count_up, range, find, same_option,
  num_cpus, Machine, siblings_of, core_of, detect,
}

-- The answer of a search among the numbers from `a`: the least one that passes, if one does.
abbrev Least : (ℕ → Bool) → ℕ → ℕ → ℕ → Option ℕ → Type 0
Least test a n b none = (b < a) ⊎ (a + n ≤ b) ⊎ (test b ≡ false)
Least test a n b (some c) =
    (a ≤ c) × (c < a + n) × (test c ≡ true) × ((b < a) ⊎ (c ≤ b) ⊎ (test b ≡ false))

same_test : (test : ℕ → Bool) (a b : ℕ) → test a ≡ false → a ≡ b → test b ≡ false
same_test test a b e q = rw (← q) e

-- A bound that grows by one where the test fails.
lower : (test : ℕ → Bool) (a b : ℕ) → test a ≡ false → b < suc a → (b < a) ⊎ (test b ≡ false)
lower test a b e h = elim (dec_lt b a) [
  | yes l ↦ inl l
  | no g ↦ inr (same_test test a b e (omega arith))
]

Least-step :
    (test : ℕ → Bool) (a n b : ℕ) (o : Option ℕ)
    → test a ≡ false
    → Least test (suc a) n b o
    → Least test a (suc n) b o
Least-step test a n b none e (inl h) = elim (lower test a b e h) [
  | inl l ↦ inl l
  | inr f ↦ inr (inr f)
]
Least-step test a n b none e (inr (inl h)) = inr (inl (omega arith))
Least-step test a n b none e (inr (inr h)) = inr (inr h)
Least-step test a n b (some c) e (p, q, r, inl h) = elim (lower test a b e h) [
  | inl l ↦ (omega arith, omega arith, r, inl l)
  | inr f ↦ (omega arith, omega arith, r, inr (inr f))
]
Least-step test a n b (some c) e (p, q, r, inr h) = (omega arith, omega arith, r, inr h)

find-count_up : (test : ℕ → Bool) (a n b : ℕ) → Least test a n b (find test (count_up a n))
unfolding find count_up
find-count_up test a zero b = ground arith
find-count_up test a (suc n) b = elim (Bool-cases (test a)) [
  | inl e ↦ rw e (omega arith, omega arith, e, ground arith)
  | inr e ↦
      rw e
        (Least-step test a n b (find test (count_up (suc a) n)) e (find-count_up test (suc a) n b))
]

-- The first that passes, or that none does.
abbrev pub First : (ℕ → Type 0) → List ℕ → Option ℕ → Type 0
First P l none = All (λ c. ¬ P c) l
First P l (some c) =
    (before : List ℕ) × (after : List ℕ) × (l ≡ before ++ c ∷ after) × All (λ b. ¬ P b) before × P c

First-step :
    (P : ℕ → Type 0) (x : ℕ) (l : List ℕ) (o : Option ℕ) → ¬ P x → First P l o → First P (x ∷ l) o
First-step P x l none n h = (n, h)
First-step P x l (some c) n (before, after, e, h, p) =
    (x ∷ before, after, ap (λ (t : List ℕ). x ∷ t) e, (n, h), p)

find-First : (f : ℕ) (l : List ℕ) → First (λ c. c ≢ f) l (find (λ c. not (c == f)) l)
unfolding find
find-First f [] = tt
find-First f (x ∷ l) = elim (Bool-cases (x == f)) [
  | inl e ↦ rw e (
      First-step (λ c. c ≢ f) x l (find (λ c. not (c == f)) l) (λ n. n (ground arith))
        (find-First f l))
  | inr e ↦ rw e ([], l, refl, tt, ground arith)
]

-- A CPU number below the count of online CPUs, neither `faulter` nor its sibling, whose core id reads
-- otherwise than the one of `faulter`; an id that cannot be read is otherwise than one that can.
abbrev pub ReadsOtherCore : Machine → ℕ → ℕ → Type 0
ReadsOtherCore m f c =
    (c < num_cpus m.online)
    × (c ≢ f)
    × ((detect m f).smt_sibling ≢ some c)
    × (core_of m c ≢ core_of m f)

abbrev is_other : Machine → ℕ → ℕ → Bool
is_other m f c =
    not (c == f)
    && not (same_option (some c) (detect m f).smt_sibling)
    && not (same_option (core_of m c) (core_of m f))

same_option_iff : (a b : Option ℕ) → (same_option a b ≡ true) ↔ (a ≡ b)
same_option_iff none none = ground arith
same_option_iff none (some b) = ground arith
same_option_iff (some a) none = ground arith
same_option_iff (some a) (some b) = ground arith

is_other_iff :
    (m : Machine) (f c : ℕ)
    → (is_other m f c ≡ true)
      ↔ ((c ≢ f) × ((detect m f).smt_sibling ≢ some c) × (core_of m c ≢ core_of m f))
is_other_iff m f c = ground (
  arith,
  same_option_iff (some c) (detect m f).smt_sibling,
  same_option_iff (core_of m c) (core_of m f),
)

-- What a search for another core gives, judged at one CPU `b`.
abbrev pub Chosen : Machine → ℕ → ℕ → Option ℕ → Type 0
Chosen m f b none = ¬ ReadsOtherCore m f b
Chosen m f b (some c) = ReadsOtherCore m f c × ((¬ ReadsOtherCore m f b) ⊎ (c ≤ b))

not_other : (m : Machine) (f b : ℕ) → is_other m f b ≡ false → ¬ ReadsOtherCore m f b
not_other m f b e (l, n, s, k) = cc (e, (is_other_iff m f b).1 (n, s, k))

least_rest :
    (m : Machine) (f b c : ℕ)
    → (b < 0) ⊎ (c ≤ b) ⊎ (is_other m f b ≡ false)
    → (¬ ReadsOtherCore m f b) ⊎ (c ≤ b)
least_rest m f b c (inl h) = absurd (omega arith)
least_rest m f b c (inr (inl h)) = inr h
least_rest m f b c (inr (inr h)) = inl (not_other m f b h)

Least-Chosen :
    (m : Machine) (f b : ℕ) (o : Option ℕ)
    → Least (is_other m f) 0 (num_cpus m.online) b o
    → Chosen m f b o
Least-Chosen m f b none (inl h) = absurd (omega arith)
Least-Chosen m f b none (inr (inl h)) = λ k. omega arith
Least-Chosen m f b none (inr (inr h)) = not_other m f b h
Least-Chosen m f b (some c) (p, q, r, h) =
    let (n, s, k) = (is_other_iff m f c).0 r in ((omega arith, n, s, k), least_rest m f b c h)

detect-faulter : (m : Machine) (f : ℕ) → some (detect m f).faulter ≡ some f
unfolding detect
detect-faulter m f = refl

detect-smt : (m : Machine) (f : ℕ) → First (λ c. c ≢ f) (siblings_of m f) (detect m f).smt_sibling
unfolding detect
detect-smt m f = find-First f (siblings_of m f)

range_zero : (n : ℕ) → range 0 n ≡ count_up 0 n
unfolding range
range_zero n = ap (count_up 0) (omega arith)

other_core-find :
    (m : Machine) (f : ℕ)
    → (detect m f).other_core ≡ find (is_other m f) (count_up 0 (num_cpus m.online))
unfolding detect
other_core-find m f = ap (find (is_other m f)) (range_zero (num_cpus m.online))

detect-other : (m : Machine) (f b : ℕ) → Chosen m f b (detect m f).other_core
detect-other m f b =
    Least-Chosen m f b (detect m f).other_core
      (rw (other_core-find m f) (find-count_up (is_other m f) 0 (num_cpus m.online) b))

-- detect offers the faulting CPU itself, then the first listed sibling that is another CPU, and none
-- exactly if there is no such sibling; and as the other core the lowest CPU number that is below the
-- count of online CPUs, is neither of the two, and whose core id reads otherwise than that of the
-- faulting CPU, an unreadable id counting as different from a readable one; it offers none only if
-- there is no such number (`b` ranges over all).
pub detect_lem :
    (m : Machine) (f b : ℕ)
    → (cpu_for (detect m f) Placement.same_cpu ≡ some f)
      × First (λ c. c ≢ f) (siblings_of m f) (cpu_for (detect m f) Placement.smt_sibling)
      × Chosen m f b (cpu_for (detect m f) Placement.other_core)
unfolding cpu_for
detect_lem m f b = (detect-faulter m f, detect-smt m f, detect-other m f b)

-- What the sibling and the other core are not.
sibling_ne : (m : Machine) (f c : ℕ) → (detect m f).smt_sibling ≡ some c → c ≢ f
sibling_ne m f c e = (subst (First (λ x. x ≢ f) (siblings_of m f)) e (detect-smt m f)).4

other_ne :
    (m : Machine) (f c : ℕ)
    → (detect m f).other_core ≡ some c
    → (c ≢ f) × ((detect m f).smt_sibling ≢ some c)
other_ne m f c e = let (l, n, s, k) = (subst (Chosen m f 0) e (detect-other m f 0)).0 in (n, s)

-- Whatever the machine says of itself, two different placements that detect offers are two different
-- CPUs.
pub cpu_for-distinct :
    (m : Machine) (f c : ℕ) (p q : Placement)
    → p ≢ q
    → cpu_for (detect m f) p ≡ some c
    → cpu_for (detect m f) q ≢ some c
unfolding cpu_for
cpu_for-distinct m f c same_cpu same_cpu n e k = absurd (n refl)
cpu_for-distinct m f c same_cpu smt_sibling n e k =
    ground (arith, sibling_ne m f c k, detect-faulter m f)
cpu_for-distinct m f c same_cpu other_core n e k =
    ground (arith, other_ne m f c k, detect-faulter m f)
cpu_for-distinct m f c smt_sibling same_cpu n e k =
    ground (arith, sibling_ne m f c e, detect-faulter m f)
cpu_for-distinct m f c smt_sibling smt_sibling n e k = absurd (n refl)
cpu_for-distinct m f c smt_sibling other_core n e k = (other_ne m f c k).1 e
cpu_for-distinct m f c other_core same_cpu n e k =
    ground (arith, other_ne m f c e, detect-faulter m f)
cpu_for-distinct m f c other_core smt_sibling n e k = (other_ne m f c e).1 k
cpu_for-distinct m f c other_core other_core n e k = absurd (n refl)

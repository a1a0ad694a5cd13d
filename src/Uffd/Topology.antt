-- ===== src/Uffd/Topology.antt =====
-- rung-03-uffd/toy-uffd-raw/src/topology.rs: which CPUs the machine offers for the fault handler.
-- What the files under /sys/devices/system/cpu hold is a parameter, and so is what `sysconf` says;
-- pinning a thread and asking for its CPU are system calls only.
pub mod Lists
pub mod Choice
mod Tests
use systems_study.Prelude.{
  ℕ, zero, suc, ◌+◌, ◌-◌, Bool, true, false, not, ◌&&◌, ltb, ◌==◌, if◌then◌else◌, Option, none,
  some, List, [], ◌∷◌, ◌++◌,
}
use systems_study.Prelude.Word.{u64_mod}
use systems_study.Prelude.Text.{Text, text, trim, split, split_once, parse, decimal}
use systems_study.Uffd.{ℤ, pos, negsuc}

pub data Placement : Type 0 where
  same_cpu smt_sibling other_core : Placement

pub record Topology : Type 0 where
  pub faulter : ℕ
  pub smt_sibling : Option ℕ
  pub other_core : Option ℕ

unfoldable pub cpu_for : Topology → Placement → Option ℕ
cpu_for t Placement.same_cpu = some t.faulter
cpu_for t Placement.smt_sibling = t.smt_sibling
cpu_for t Placement.other_core = t.other_core

-- `n` numbers from `a`, and the ranges `a..b` and `a..=b`.
unfoldable pub count_up : ℕ → ℕ → List ℕ
count_up a zero = []
count_up a (suc n) = a ∷ count_up (suc a) n

unfoldable pub range : ℕ → ℕ → List ℕ
unfolding count_up
range a b = count_up a (b - a)

unfoldable pub range_inclusive : ℕ → ℕ → List ℕ
unfolding count_up
range_inclusive a b = count_up a (suc b - a)

abbrev pub parse_usize : Text → Option ℕ
parse_usize = parse u64_mod

-- `out.extend(a..=b)` if both parse.
abbrev pub between : Option ℕ → Option ℕ → List ℕ
between (some a) (some b) = range_inclusive a b
between _ _ = []

abbrev pub alone : Option ℕ → List ℕ
alone (some v) = v ∷ []
alone none = []

-- What one part of the list adds.
unfoldable pub read_part : Text → List ℕ
read_part part = elim (split_once b'-' part) [
  | some (a, b) ↦ between (parse_usize (trim a)) (parse_usize (trim b))
  | none ↦ alone (parse_usize (trim part))
]

unfoldable pub read_parts : List Text → List ℕ
read_parts [] = []
read_parts (part ∷ rest) = read_part part ++ read_parts rest

-- `none` for a file that cannot be read.
unfoldable pub read_list : Option Text → List ℕ
unfolding read_parts read_part
read_list none = []
read_list (some s) = read_parts (split b',' (trim s))

abbrev pub first? : List ℕ → Option ℕ
first? [] = none
first? (x ∷ xs) = some x

unfoldable pub read_first : Option Text → Option ℕ
unfolding read_list
read_first file = first? (read_list file)

abbrev pub same_option : Option ℕ → Option ℕ → Bool
same_option none none = true
same_option (some a) (some b) = a == b
same_option _ _ = false

unfoldable pub find : (ℕ → Bool) → List ℕ → Option ℕ
find test [] = none
find test (x ∷ xs) = let rest = find test xs in if test x then some x else rest

-- `sysconf` answers -1 where it cannot tell.
unfoldable pub num_cpus : ℤ → ℕ
num_cpus (negsuc n) = 1
num_cpus (pos n) = if ltb n 1 then 1 else n

-- What the machine says of itself.
pub record Machine : Type 0 where
  pub read_to_string : Text → Option Text
  pub online : ℤ

abbrev pub cpu_file : ℕ → Text → Text
cpu_file c name = text "/sys/devices/system/cpu/cpu" ++ (decimal c ++ (text "/topology/" ++ name))

module _ (m : Machine) where
  pub siblings_of : ℕ → List ℕ
  siblings_of c = read_list (m.read_to_string (cpu_file c (text "thread_siblings_list")))

  pub core_of : ℕ → Option ℕ
  core_of c = read_first (m.read_to_string (cpu_file c (text "core_id")))

  pub detect : ℕ → Topology
  unfolding siblings_of core_of find range num_cpus
  detect faulter =
      let sibling = find (λ c. not (c == faulter)) (siblings_of faulter) in
      let other =
        find
          (λ c.
            not (c == faulter)
            && not (same_option (some c) sibling)
            && not (same_option (core_of c) (core_of faulter)))
          (range 0 (num_cpus m.online)) in
      record { faulter = faulter; smt_sibling = sibling; other_core = other }

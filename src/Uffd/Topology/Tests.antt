-- ===== src/Uffd/Topology/Tests.antt =====
-- Tests of the CPU topology, and instances of its theorems.
use systems_study.Prelude.{◌≡◌, ◌≢◌, refl, arith, none, some, [], ◌∷◌, ◌++◌, if◌then◌else◌}
use systems_study.Prelude.Text.{
  text, same_text, is_whitespace, trim_start, keep_end, trim_end, trim, split_parts, split,
  split_once, parse_digits, parse, digits, decimal,
}
use systems_study.Uffd.{pos}
use systems_study.Uffd.Topology.{
  Placement, cpu_for, count_up, range, range_inclusive, read_part, read_parts, read_list,
  read_first, find, num_cpus, Machine, siblings_of, core_of, detect, cpu_file,
}
use systems_study.Uffd.Topology.Lists.{single, span, render, read_list-render, all_cpus}
use systems_study.Uffd.Topology.Choice.{detect_lem, First, Chosen}

-- Four CPUs on two cores: 0 and 2 are siblings, and so are 1 and 3.
abbrev laptop : Machine
laptop = record {
  read_to_string = λ path.
      if same_text path (cpu_file 0 (text "thread_siblings_list"))
      then some (text "0,2" ++ 10 ∷ [])
      else if same_text path (cpu_file 0 (text "core_id"))
      then some (text "0")
      else if same_text path (cpu_file 1 (text "core_id"))
      then some (text "1")
      else if same_text path (cpu_file 2 (text "core_id"))
      then some (text "0")
      else none;
  online = pos 4;
}

list_test : read_list (some (text " 0-2, 7,x,9-8,+4 ")) ≡ 0 ∷ 1 ∷ 2 ∷ 7 ∷ 4 ∷ []
unfolding read_list read_parts read_part trim trim_start trim_end keep_end is_whitespace split
    split_parts split_once parse parse_digits range_inclusive count_up
list_test = refl

laptop_test : detect laptop 0 ≡ record { faulter = 0; smt_sibling = some 2; other_core = some 1 }
unfolding detect siblings_of core_of read_first find range num_cpus decimal digits read_list
    read_parts read_part trim trim_start trim_end keep_end is_whitespace split split_parts
    split_once parse parse_digits range_inclusive count_up
laptop_test = refl

read_list-render_example :
    read_list (some (render (span 2 4) (single 9 ∷ []) ++ 10 ∷ []))
    ≡ all_cpus (span 2 4 ∷ single 9 ∷ [])
read_list-render_example =
    read_list-render (span 2 4) (single 9 ∷ []) (omega arith, omega arith) (omega arith, tt)

detect_lem_example :
    (cpu_for (detect laptop 0) Placement.same_cpu ≡ some 0)
    × First (λ c. c ≢ 0) (siblings_of laptop 0) (cpu_for (detect laptop 0) Placement.smt_sibling)
    × Chosen laptop 0 3 (cpu_for (detect laptop 0) Placement.other_core)
detect_lem_example = detect_lem laptop 0 3

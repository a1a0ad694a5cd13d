-- ===== src/Bench/Args/Tests.antt =====
-- Tests of the command lines, and an instance of their theorem.
use systems_study.Prelude.{◌≡◌, refl, arith, true, false, none, some, [], ◌∷◌}
use systems_study.Prelude.Text.{text, parse}
use systems_study.Bench.Args.{
  run, usage, unknown_argument, kvm_args, kvm_defaults, VirtqOptions, virtq_args, virtq_defaults,
  UffdOptions, uffd_args, uffd_defaults,
}
use systems_study.Bench.Args.RoundTrip.{args-line, kvm_line, kvm_options, virtq_line, uffd_line}

-- A count that is no number is the next argument.
no_count : kvm_args (text "--bench" ∷ text "-1" ∷ []) kvm_defaults ≡ unknown_argument (text "-1")
unfolding kvm_args parse
no_count = refl

-- `--out` without a path is accepted.
no_path :
    uffd_args (text "--bench" ∷ text "--out" ∷ []) uffd_defaults
    ≡ run (record { bench = true; reverse = false; out_path = none })
unfolding uffd_args
no_path = refl

help_first : virtq_args (text "--help" ∷ text "--wrong" ∷ []) virtq_defaults ≡ usage
unfolding virtq_args
help_first = refl

abbrev everything : VirtqOptions
everything = record { bench = true; hostile = true; out_path = some (text "--out") }

abbrev backwards_only : UffdOptions
backwards_only = record { bench = false; reverse = true; out_path = none }

args-line_example :
    (kvm_args (kvm_line (some 50) none) kvm_defaults ≡ run (kvm_options (some 50) none))
    × (virtq_args (virtq_line everything) virtq_defaults ≡ run everything)
    × (uffd_args (uffd_line backwards_only) uffd_defaults ≡ run backwards_only)
args-line_example = args-line (some 50) none everything backwards_only (omega arith)

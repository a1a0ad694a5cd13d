-- ===== src/Bench/Args.antt =====
-- The command lines of the three programs: the loops over `args` in `main` of
-- rung-01-kvm/toy-kvm-raw/src/main.rs, rung-02-virtio/toy-virtq-raw/src/main.rs and
-- rung-03-uffd/toy-uffd-raw/src/main.rs.
pub mod RoundTrip
mod Tests
use systems_study.Prelude.{
  ℕ, Bool, true, false, ◌||◌, if◌then◌else◌, Option, none, some, List, [], ◌∷◌,
}
use systems_study.Prelude.Word.{u32_mod}
use systems_study.Prelude.Text.{Text, text, same_text, parse}

-- What a program does: run with its options, print its usage and succeed, or name an argument that
-- it does not know and exit with status 2.
pub data Invocation (O : Type 0) : Type 0 where
  run : O → Invocation O
  usage : Invocation O
  unknown_argument : Text → Invocation O

-- An argument: a flag of the program's own, `--out`, a request for help, or another.
pub data Argument (F : Type 0) : Type 0 where
  flag : F → Argument F
  out help : Argument F
  other : Text → Argument F

-- The arguments that all programs know.
abbrev common : {F : Type 0} → Text → Argument F
common arg =
    if same_text arg (text "--out")
    then out
    else if same_text arg (text "-h") || same_text arg (text "--help")
    then help
    else other arg

-- `args.get(i + 1).cloned()`, and what follows it.
abbrev pub head? : List Text → Option Text
head? [] = none
head? (a ∷ rest) = some a

pub data KvmFlag : Type 0 where
  bench : KvmFlag

pub record KvmOptions : Type 0 where
  pub bench : Bool
  pub samples : ℕ
  pub out_path : Option Text

abbrev pub kvm_defaults : KvmOptions
kvm_defaults = record { bench = false; samples = 200000; out_path = none }

unfoldable pub kvm_argument : Text → Argument KvmFlag
kvm_argument arg = if same_text arg (text "--bench") then flag bench else common arg

-- A number straight after `--bench` is its count.
unfoldable pub kvm_args : List Text → KvmOptions → Invocation KvmOptions
unfolding kvm_argument
kvm_args [] o = run o
kvm_args (a ∷ []) o = elim (kvm_argument a) [
  | flag f ↦ run (record o { bench = true })
  | out ↦ run (record o { out_path = none })
  | help ↦ usage
  | other t ↦ unknown_argument t
]
kvm_args (a ∷ b ∷ rest) o = elim (kvm_argument a) [
  | flag f ↦ elim (parse u32_mod b) [
    | some n ↦ kvm_args rest (record o { bench = true; samples = n })
    | none ↦ kvm_args (b ∷ rest) (record o { bench = true })
  ]
  | out ↦ kvm_args rest (record o { out_path = some b })
  | help ↦ usage
  | other t ↦ unknown_argument t
]

pub data VirtqFlag : Type 0 where
  bench hostile : VirtqFlag

pub record VirtqOptions : Type 0 where
  pub bench : Bool
  pub hostile : Bool
  pub out_path : Option Text

abbrev pub virtq_defaults : VirtqOptions
virtq_defaults = record { bench = false; hostile = false; out_path = none }

unfoldable pub virtq_argument : Text → Argument VirtqFlag
virtq_argument arg =
    if same_text arg (text "--bench")
    then flag VirtqFlag.bench
    else if same_text arg (text "--hostile")
    then flag hostile
    else common arg

abbrev pub virtq_set : VirtqFlag → VirtqOptions → VirtqOptions
virtq_set VirtqFlag.bench o = record o { bench = true }
virtq_set hostile o = record o { hostile = true }

unfoldable pub virtq_args : List Text → VirtqOptions → Invocation VirtqOptions
unfolding virtq_argument
virtq_args [] o = run o
virtq_args (a ∷ []) o = elim (virtq_argument a) [
  | flag f ↦ run (virtq_set f o)
  | out ↦ run (record o { out_path = none })
  | help ↦ usage
  | other t ↦ unknown_argument t
]
virtq_args (a ∷ b ∷ rest) o = elim (virtq_argument a) [
  | flag f ↦ virtq_args (b ∷ rest) (virtq_set f o)
  | out ↦ virtq_args rest (record o { out_path = some b })
  | help ↦ usage
  | other t ↦ unknown_argument t
]

pub data UffdFlag : Type 0 where
  bench backwards : UffdFlag

pub record UffdOptions : Type 0 where
  pub bench : Bool
  pub reverse : Bool
  pub out_path : Option Text

abbrev pub uffd_defaults : UffdOptions
uffd_defaults = record { bench = false; reverse = false; out_path = none }

unfoldable pub uffd_argument : Text → Argument UffdFlag
uffd_argument arg =
    if same_text arg (text "--bench")
    then flag UffdFlag.bench
    else if same_text arg (text "--reverse")
    then flag backwards
    else common arg

abbrev pub uffd_set : UffdFlag → UffdOptions → UffdOptions
uffd_set UffdFlag.bench o = record o { bench = true }
uffd_set backwards o = record o { reverse = true }

unfoldable pub uffd_args : List Text → UffdOptions → Invocation UffdOptions
unfolding uffd_argument
uffd_args [] o = run o
uffd_args (a ∷ []) o = elim (uffd_argument a) [
  | flag f ↦ run (uffd_set f o)
  | out ↦ run (record o { out_path = none })
  | help ↦ usage
  | other t ↦ unknown_argument t
]
uffd_args (a ∷ b ∷ rest) o = elim (uffd_argument a) [
  | flag f ↦ uffd_args (b ∷ rest) (uffd_set f o)
  | out ↦ uffd_args rest (record o { out_path = some b })
  | help ↦ usage
  | other t ↦ unknown_argument t
]

-- ===== src/Bench/Args/RoundTrip.antt =====
-- A command line that spells options out is read back as these options.
use systems_study.Prelude.{ℕ, ◌<◌, ◌≡◌, refl, Bool, true, false, Option, none, some, List, [], ◌∷◌}
use systems_study.Prelude.Word.{u32_mod}
use systems_study.Prelude.Text.{Text, text, decimal}
use systems_study.Prelude.TextLaws.{parse-decimal}
use systems_study.Bench.Args.{
  run, KvmOptions, kvm_defaults, kvm_args, VirtqOptions, virtq_defaults, virtq_args, UffdOptions,
  uffd_defaults, uffd_args,
}

abbrev spell_out : Option Text → List Text
spell_out none = []
spell_out (some path) = text "--out" ∷ path ∷ []

abbrev pub spell : Bool → Text → List Text → List Text
spell true name rest = name ∷ rest
spell false name rest = rest

-- With a count for the benchmark, or with neither.
abbrev pub kvm_line : Option ℕ → Option Text → List Text
kvm_line none path = spell_out path
kvm_line (some n) path = text "--bench" ∷ decimal n ∷ spell_out path

abbrev pub kvm_options : Option ℕ → Option Text → KvmOptions
kvm_options none path = record kvm_defaults { out_path = path }
kvm_options (some n) path = record { bench = true; samples = n; out_path = path }

abbrev pub virtq_line : VirtqOptions → List Text
virtq_line o =
    spell o.bench (text "--bench") (spell o.hostile (text "--hostile") (spell_out o.out_path))

abbrev pub uffd_line : UffdOptions → List Text
uffd_line o =
    spell o.bench (text "--bench") (spell o.reverse (text "--reverse") (spell_out o.out_path))

abbrev pub IsCount : Option ℕ → Type 0
IsCount none = Unit
IsCount (some n) = n < u32_mod

kvm_read :
    (count : Option ℕ) (path : Option Text)
    → IsCount count
    → kvm_args (kvm_line count path) kvm_defaults ≡ run (kvm_options count path)
unfolding kvm_args
kvm_read none none h = refl
kvm_read none (some p) h = refl
kvm_read (some n) none h = rw (parse-decimal u32_mod n h, kvm_args)
kvm_read (some n) (some p) h = rw (parse-decimal u32_mod n h, kvm_args)

virtq_read :
    (b h : Bool) (path : Option Text)
    → (let o : VirtqOptions = record { bench = b; hostile = h; out_path = path } in
        virtq_args (virtq_line o) virtq_defaults ≡ run o)
unfolding virtq_args
virtq_read true true none = refl
virtq_read true true (some p) = refl
virtq_read true false none = refl
virtq_read true false (some p) = refl
virtq_read false true none = refl
virtq_read false true (some p) = refl
virtq_read false false none = refl
virtq_read false false (some p) = refl

uffd_read :
    (b r : Bool) (path : Option Text)
    → (let o : UffdOptions = record { bench = b; reverse = r; out_path = path } in
        uffd_args (uffd_line o) uffd_defaults ≡ run o)
unfolding uffd_args
uffd_read true true none = refl
uffd_read true true (some p) = refl
uffd_read true false none = refl
uffd_read true false (some p) = refl
uffd_read false true none = refl
uffd_read false true (some p) = refl
uffd_read false false none = refl
uffd_read false false (some p) = refl

-- Whatever the options of the three programs are, the command line that spells them out is read back
-- as exactly these options: any text is a path after `--out`, one that looks like a flag included,
-- and a decimal number below 2^32 after `--bench` is the count of the first program.
pub args-line :
    (count : Option ℕ) (path : Option Text) (v : VirtqOptions) (u : UffdOptions)
    → IsCount count
    → (kvm_args (kvm_line count path) kvm_defaults ≡ run (kvm_options count path))
      × (virtq_args (virtq_line v) virtq_defaults ≡ run v)
      × (uffd_args (uffd_line u) uffd_defaults ≡ run u)
args-line count path v u h = (
  kvm_read count path h,
  virtq_read v.bench v.hostile v.out_path,
  uffd_read u.bench u.reverse u.out_path,
)

-- ===== src/Kvm/Guest.antt =====
-- rung-01-kvm/toy-kvm-raw/src/guest.rs: the program that measures exits, and the loading of a
-- program into guest memory by `load` of vmm.rs.
pub mod Laws
mod Tests
use Prim.Native.Nat.{bit_and}
use systems_study.Prelude.{
  ℕ, ◌+◌, ◌-◌, ◌/◌, ◌%◌, ◌<◌, ◌≤◌, Bool, ltb, leb, ◌&&◌, if◌then◌else◌, Option, none, some, List,
  [], ◌∷◌, ◌++◌, length, take, drop, set,
}
use systems_study.Prelude.Word.{add64, u8_mod, u16_mod}

abbrev pub load_addr : ℕ
load_addr = 0x1000

abbrev pub bench_count_offset : ℕ
bench_count_offset = 4

abbrev pub bench_max_per_round : ℕ
bench_max_per_round = 65535

abbrev pub bench_template : List ℕ
bench_template = 0xba ∷ 0x80 ∷ 0x00 ∷ 0xb9 ∷ 0x00 ∷ 0x00 ∷ 0xee ∷ 0xe2 ∷ 0xfd ∷ 0xf4 ∷ []

-- `none` is the panic of the assertion; `count as u16`, its low byte and its high byte.
pub bench_program : ℕ → Option (List ℕ)
bench_program count =
    if ltb 0 count && leb count bench_max_per_round
    then (let c = count % u16_mod in
        let prog = set bench_template bench_count_offset (bit_and c 0xff % u8_mod) in
        some (set prog (bench_count_offset + 1) (c / 256 % u8_mod)))
    else none

-- What `load` does: the new memory, an error, or a copy that leaves the mapping, on which nothing
-- more is said.
pub data Loaded : Type 0 where
  loaded : List ℕ → Loaded
  exceeds : Loaded
  stray : Loaded

-- The copy of `bytes` to offset `gpa` of the mapping.
abbrev pub copy_at : List ℕ → ℕ → List ℕ → Loaded
copy_at ram gpa bytes =
    if leb (gpa + length bytes) (length ram)
    then loaded (take gpa ram ++ (bytes ++ drop (gpa + length bytes) ram))
    else stray

-- `Vm::load`. Its sum wraps, as it does in the release build.
pub load : List ℕ → ℕ → List ℕ → Loaded
load ram gpa bytes =
    if ltb (length ram) (add64 gpa (length bytes)) then exceeds else copy_at ram gpa bytes

-- ===== src/Virtio/Mem/Tests.antt =====
-- Runs of mem.rs, and its theorems at a region of four bytes.
use systems_study.Prelude.{◌≡◌, refl, arith, [], ◌∷◌}
use systems_study.Prelude.Result.{ok, err}
use systems_study.Virtio.Mem.{
  SharedMem, out_of_bounds, zeroed, read_slice, write_slice, read_u32, write_u32,
}
use systems_study.Virtio.Mem.RoundTrip.{w32, read_word, read-write}

abbrev four : SharedMem
four = record { buf = 1 ∷ 2 ∷ 3 ∷ 4 ∷ [] }

-- `little_endian_on_the_wire`
abbrev wired : SharedMem
wired = record { buf = 0x78 ∷ 0x56 ∷ 0x34 ∷ 0x12 ∷ [] }

little_endian : write_u32 four 0 0x1234_5678 ≡ ok wired
unfolding write_u32
little_endian = refl

-- `address_overflow_does_not_wrap_into_a_pass`
overflow_refused :
    read_slice four 18446744073709551614 8 ≡ err (out_of_bounds 18446744073709551614 8 4)
unfolding read_slice
overflow_refused = refl

past_the_end : read_u32 (zeroed 64) 61 ≡ err (out_of_bounds 61 4 64)
unfolding read_u32 zeroed
past_the_end = refl

read-write_example : read_word w32 wired 0 ≡ ok 0x1234_5678
read-write_example =
    read-write w32 four 0 0x1234_5678 wired (omega arith) (omega arith) little_endian

abbrev patched : SharedMem
patched = record { buf = 9 ∷ 8 ∷ 3 ∷ 4 ∷ [] }

write_patch : write_slice four 0 (9 ∷ 8 ∷ []) ≡ ok patched
unfolding write_slice
write_patch = refl

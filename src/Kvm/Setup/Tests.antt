-- ===== src/Kvm/Setup/Tests.antt =====
-- Tests of the ioctl numbers and of `Vm::new` on a kernel that answers from a list.
use systems_study.Prelude.{ℕ, ◌≡◌, refl, List, [], ◌∷◌}
use systems_study.Prelude.Result.{Result, ok, err}
use systems_study.Kvm.Ioctl.{
  kvm_create_vm, kvm_set_user_memory_region, kvm_run, kvm_get_regs, kvm_set_regs, kvm_get_sregs,
  kvm_set_sregs,
}
use systems_study.Prelude.Owned.{fd, mapped, acquired, released, Process}
use systems_study.Prelude.Owned.Tidy.{Tidy}
use systems_study.Kvm.Setup.{os, panic, KvmCalls, new}
use systems_study.Kvm.Setup.Balance.{Built, new-Tidy}

-- The numbers that the kernel's header has.
numbers :
    (kvm_run ≡ 0xae80)
    × (kvm_create_vm ≡ 0xae01)
    × (kvm_set_user_memory_region ≡ 0x4020ae46)
    × (kvm_get_regs ≡ 0x8090ae81)
    × (kvm_set_regs ≡ 0x4090ae82)
    × (kvm_get_sregs ≡ 0x8138ae83)
    × (kvm_set_sregs ≡ 0x4138ae84)
unfolding kvm_run kvm_create_vm kvm_set_user_memory_region kvm_get_regs kvm_set_regs kvm_get_sregs
    kvm_set_sregs
numbers = (refl, refl, refl, refl, refl, refl, refl)

abbrev Answers : Type 0
Answers = List (Result ℕ ℕ)

abbrev answer : Answers → Result ℕ ℕ × Answers
answer [] = (err 38, [])
answer (a ∷ rest) = (a, rest)

abbrev scripted : KvmCalls Answers
scripted = record {
  open_kvm = answer;
  ioctl_val = λ _ _ _. answer;
  ioctl_region = λ _ _ _. answer;
  mmap = λ _ _. answer;
}

-- The scratch pages are refused, which is ignored.
abbrev willing : Process Answers
willing = record {
  kernel =
      ok 3 ∷ ok 12 ∷ ok 1 ∷ ok 4 ∷ err 22 ∷ ok 0x700000 ∷ ok 0 ∷ ok 5 ∷ ok 12288 ∷ ok 0x900000 ∷ [];
  log = [];
}

-- The vCPU is refused.
abbrev unwilling : Process Answers
unwilling = record {
  kernel = ok 3 ∷ ok 12 ∷ ok 1 ∷ ok 4 ∷ ok 0 ∷ ok 0x700000 ∷ ok 0 ∷ err 17 ∷ [];
  log = [];
}

refused_log : new scripted 8192 unwilling ≡ (
  err (os 17),
  record {
    kernel = [];
    log =
        acquired (fd 3)
        ∷ acquired (fd 4)
        ∷ acquired (mapped 0x700000 8192)
        ∷ released (mapped 0x700000 8192)
        ∷ released (fd 4)
        ∷ released (fd 3)
        ∷ [];
  },
)
unfolding new
refused_log = refl

odd_size : (new scripted 100 willing).0 ≡ err panic
unfolding new
odd_size = refl

new-Tidy_example : Tidy (Built 8192 []) [] (new scripted 8192 willing)
new-Tidy_example = new-Tidy scripted 8192 willing

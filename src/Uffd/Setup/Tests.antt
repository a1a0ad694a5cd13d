-- ===== src/Uffd/Setup/Tests.antt =====
-- Tests of the ioctl numbers, and of the set-up on a kernel that permits user mode only.

use systems_study.Prelude.{ℕ, ◌≡◌, refl, true, false, ◌==◌, if◌then◌else◌, ◌%◌, [], ◌∷◌}
use systems_study.Prelude.Result.{ok, err}
use systems_study.Prelude.Owned.{fd, mapped, acquired, released, Process}
use systems_study.Prelude.Owned.Tidy.{Tidy}
use systems_study.Uffd.{Syscalls, UffdMsg, os, register_missing}
use systems_study.Uffd.Ioctl.{
  uffdio_api, uffdio_register, uffdio_unregister, uffdio_wake, uffdio_copy, uffdio_zeropage,
}
use systems_study.Uffd.Setup.{UffdCalls, io, eperm, new, prepare_demo, prepare_config}
use systems_study.Uffd.Setup.Opening.{Opened, new-Opened}
use systems_study.Uffd.Setup.Balance.{DemoReady, prepare_demo-Tidy}

-- The numbers that the kernel's header has.
numbers :
    (uffdio_api ≡ 0xc018aa3f)
    × (uffdio_register ≡ 0xc020aa00)
    × (uffdio_unregister ≡ 0x8010aa01)
    × (uffdio_wake ≡ 0x8010aa02)
    × (uffdio_copy ≡ 0xc028aa03)
    × (uffdio_zeropage ≡ 0xc020aa04)
unfolding uffdio_api uffdio_register uffdio_unregister uffdio_wake uffdio_copy uffdio_zeropage
numbers = (refl, refl, refl, refl, refl, refl)

abbrev blank : UffdMsg
blank = record {
  event = 0;
  reserved1 = 0;
  reserved2 = 0;
  reserved3 = 0;
  pagefault_flags = 0;
  pagefault_address = 0;
  pagefault_ptid = 0;
  pad = 0;
}

-- Ranges are refused when the kernel's state is odd.
abbrev quiet : Syscalls ℕ
quiet = record {
  poll = λ timeout k. (ok 0, k);
  read = λ k. (ok (32, blank), k);
  copy_ioctl = λ c k. (ok c, k);
  register_ioctl = λ r k. (if k % 2 == 0 then ok r else err 22, k);
  wake_ioctl = λ r k. (ok tt, k);
  stopped = λ k. (false, k);
}

abbrev unprivileged : UffdCalls ℕ
unprivileged = record {
  userfaultfd = λ flags k. (if flags % 2 == 0 then err eperm else ok 5, k);
  api_ioctl = λ raw request a k. (ok a, k);
  channel = λ raw. quiet;
  page_size = λ k. (4096, k);
  mmap = λ len backing k. (ok 0x700000, k);
}

abbrev at : ℕ → Process ℕ
at k = record { kernel = k; log = [] }

refused_range : prepare_config unprivileged 2 (at 1) ≡ (
  err (io (os 22)),
  record {
    kernel = 1;
    log =
        acquired (mapped 0x700000 8192)
        ∷ acquired (fd 5)
        ∷ released (fd 5)
        ∷ released (mapped 0x700000 8192)
        ∷ [];
  },
)
unfolding prepare_config register_missing
refused_range = refl

new-Opened_example : Tidy (Opened unprivileged true (at 0)) [] (new unprivileged true (at 0))
new-Opened_example = new-Opened unprivileged true (at 0)

prepare_demo-Tidy_example : Tidy (DemoReady 64 []) [] (prepare_demo unprivileged 64 (at 0))
prepare_demo-Tidy_example = prepare_demo-Tidy unprivileged 64 (at 0)

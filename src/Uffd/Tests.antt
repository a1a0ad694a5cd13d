-- ===== src/Uffd/Tests.antt =====
-- A kernel with nothing to read at first, then a fault message; and a copy that another thread won.
use systems_study.Prelude.{ℕ, zero, suc, ◌<◌, ◌≡◌, ◌↔◌, refl, true, false, some}
use systems_study.Prelude.Result.{Result, ok, err}
use systems_study.Uffd.{
  Syscalls, UffdMsg, negsuc, eagain, msg_size, read_event_spin, read_event, copy,
}
use systems_study.Uffd.Event.{Polled, read_event_iff}
use systems_study.Uffd.Spin.{Spins, Ends, request, Installed, read_event_spin_iff, copy_iff}

abbrev fault : UffdMsg
fault = record {
  event = 0x12;
  reserved1 = 0;
  reserved2 = 0;
  reserved3 = 0;
  pagefault_flags = 0;
  pagefault_address = 0x7000;
  pagefault_ptid = 0;
  pad = 0;
}

-- The state counts the reads; every copy finds the page installed.
abbrev small_kernel : Syscalls ℕ
small_kernel = record {
  poll = λ timeout k. (ok 1, k);
  read = λ k. elim k as (λ n. Result ℕ (ℕ × UffdMsg) × ℕ) [
    | zero ↦ (err eagain, 1)
    | suc n ↦ (ok (msg_size, fault), suc (suc n))
  ];
  copy_ioctl = λ c k. (ok (record c { copied = negsuc 16 }), k);
  register_ioctl = λ r k. (ok r, k);
  wake_ioctl = λ r k. (ok tt, k);
  stopped = λ k. (false, k);
}

received_second : read_event_spin small_kernel 3 0 ≡ (some (ok (some fault)), 2)
unfolding read_event_spin
received_second = refl

read_event_spin_iff_example : (read_event_spin small_kernel 3 0 ≡ (some (ok (some fault)), 2)) ↔ (
    (n : ℕ) × (n < 3)
    × (m : ℕ) × Spins small_kernel n 0 m
    × Ends small_kernel m (ok (some fault)) 2)
read_event_spin_iff_example = read_event_spin_iff small_kernel 3 0 2 (ok (some fault))

abbrev bytes_copied : ℕ
bytes_copied = 0

copy_iff_example :
    ((copy small_kernel 0x7000 0x9000 4096 true 5).0 ≡ ok bytes_copied)
    ↔ Installed (small_kernel.copy_ioctl (request 0x7000 0x9000 4096 true) 5).0 bytes_copied
copy_iff_example = copy_iff small_kernel 0x7000 0x9000 4096 true 5 bytes_copied

read_event_iff_example :
    ((read_event small_kernel 10 1).0 ≡ ok (some fault))
    ↔ Polled (ok 1) (ok (msg_size, fault)) (some fault)
read_event_iff_example = read_event_iff small_kernel 10 1 (some fault)

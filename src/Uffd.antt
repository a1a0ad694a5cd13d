-- ===== src/Uffd.antt =====
-- rung-03-uffd/toy-uffd-raw/src/uffd.rs: reading fault messages and installing pages. The system
-- calls on the descriptor are parameters; they return a count, or the `errno` of a failure.
pub mod Event
pub mod Spin
pub mod Topology
pub mod Handler
pub mod Restore
pub mod Sweep
pub mod Ioctl
pub mod Setup
mod Tests
use systems_study.Prelude.{
  ℕ, zero, suc, ◌+◌, ◌%◌, Bool, true, false, ◌==◌, if◌then◌else◌, Option, none, some,
}
use systems_study.Prelude.Result.{
  Result, ok, err, Method, ◌>>=◌, ◌>>◌, bind_result, pure, fail, state,
}
use systems_study.Prelude.Word.{u32_mod}

abbrev pub eintr : ℕ
eintr = 4

abbrev pub eagain : ℕ
eagain = 11

abbrev pub eexist : ℕ
eexist = 17

abbrev pub uffdio_copy_mode_dontwake : ℕ
uffdio_copy_mode_dontwake = 1

-- The size of a message.
abbrev pub msg_size : ℕ
msg_size = 32

pub record UffdMsg : Type 0 where
  pub event : ℕ
  pub reserved1 : ℕ
  pub reserved2 : ℕ
  pub reserved3 : ℕ
  pub pagefault_flags : ℕ
  pub pagefault_address : ℕ
  pub pagefault_ptid : ℕ
  pub pad : ℕ

-- The out-parameter of `UFFDIO_COPY`, an `i64`: `negsuc n` is `-(n + 1)`.
pub data ℤ : Type 0 where
  pos : ℕ → ℤ
  negsuc : ℕ → ℤ

pub record UffdioCopy : Type 0 where
  pub dst : ℕ
  pub src : ℕ
  pub len : ℕ
  pub mode : ℕ
  pub copied : ℤ

pub record UffdioRange : Type 0 where
  pub start : ℕ
  pub len : ℕ

pub record UffdioRegister : Type 0 where
  pub range : UffdioRange
  pub mode : ℕ
  pub ioctls : ℕ

abbrev pub uffdio_register_mode_missing : ℕ
uffdio_register_mode_missing = 1

pub data IoError : Type 0 where
  os : ℕ → IoError
  short_read : ℕ → IoError

-- The system calls on the descriptor. `K` is the state of the kernel and of the other threads;
-- `stopped` is a load of the flag that ends the spinning.
pub record Syscalls (K : Type 0) : Type 0 where
  pub poll : ℕ → K → Result ℕ ℕ × K
  pub read : K → Result ℕ (ℕ × UffdMsg) × K
  pub copy_ioctl : UffdioCopy → K → Result ℕ UffdioCopy × K
  pub register_ioctl : UffdioRegister → K → Result ℕ UffdioRegister × K
  pub wake_ioctl : UffdioRange → K → Result ℕ (Unit {0}) × K
  pub stopped : K → Bool × K

abbrev pub Action : Type 0 → Type 0 → Type 0
Action K A = Method K IoError A

-- What the spinning loop makes of its `read`: a result, or `none` to try again.
pub spun : Result ℕ (ℕ × UffdMsg) → Option (Result IoError (Option UffdMsg))
spun (ok (got, msg)) = if got == msg_size then some (ok (some msg)) else none
spun (err e) = if e == eagain then none else if e == eintr then none else some (err (os e))

-- The result of `copy` by the out-parameter; `-c.copy as i32` keeps 32 bits.
abbrev pub by_out : ℤ → Result IoError ℕ
by_out (pos n) = ok n
by_out (negsuc n) = if suc n == eexist then ok 0 else err (os (suc n % u32_mod))

abbrev pub by_ioctl : Result ℕ UffdioCopy → Result IoError ℕ
by_ioctl (err e) = if e == eexist then ok 0 else err (os e)
by_ioctl (ok c) = by_out c.copied

-- The result of a call whose failure is the last OS error.
abbrev pub or_os : {A B : Type 0} → Result ℕ A → (A → B) → Result IoError B
or_os (err e) f = err (os e)
or_os (ok a) f = ok (f a)

module _ {K : Type 0} (sys : Syscalls K) where
  -- What `read_event` makes of its `read`.
  pub received : Result ℕ (ℕ × UffdMsg) × K → Result IoError (Option UffdMsg) × K
  received (err e, k) = if e == eagain then (ok none, k) else (err (os e), k)
  received (ok (got, msg), k) =
      if got == msg_size then (ok (some msg), k) else (err (short_read got), k)

  pub polled : Result ℕ ℕ × K → Result IoError (Option UffdMsg) × K
  unfolding received
  polled (err e, k) = if e == eintr then (ok none, k) else (err (os e), k)
  polled (ok zero, k) = (ok none, k)
  polled (ok (suc n), k) = received (sys.read k)

  pub read_event : ℕ → Action K (Option UffdMsg)
  unfolding polled
  read_event timeout_ms k = polled (sys.poll timeout_ms k)

  -- One round of `read_event_spin`.
  pub spin_round : K → Option (Result IoError (Option UffdMsg)) × K
  unfolding spun
  spin_round k =
      let (stop, k') = sys.stopped k in
      if stop then (some (ok none), k') else (let (answer, k'') = sys.read k' in (spun answer, k''))

  -- The loop, with fuel; `none` means that it ran out.
  pub read_event_spin : ℕ → K → Option (Result IoError (Option UffdMsg)) × K
  unfolding spin_round
  read_event_spin zero k = (none, k)
  read_event_spin (suc fuel) k =
      let (result, k') = spin_round k in
      elim result [ some r ↦ (some r, k') | none ↦ read_event_spin fuel k' ]

  pub copy : ℕ → ℕ → ℕ → Bool → Action K ℕ
  copy dst src len wake k =
      let c : UffdioCopy = record {
        dst = dst;
        src = src;
        len = len;
        mode = if wake then 0 else uffdio_copy_mode_dontwake;
        copied = pos 0;
      } in
      let (answer, k') = sys.copy_ioctl c k in (by_ioctl answer, k')

  -- The ioctls that the kernel reports for the range.
  pub register_missing : ℕ → ℕ → Action K ℕ
  register_missing start len k =
      let request : UffdioRegister = record {
        range = record { start = start; len = len };
        mode = uffdio_register_mode_missing;
        ioctls = 0;
      } in
      let (answer, k') = sys.register_ioctl request k in (or_os answer (λ reg. reg.ioctls), k')

  pub wake : ℕ → ℕ → Action K (Unit {0})
  wake start len k =
      let (answer, k') = sys.wake_ioctl (record { start = start; len = len }) k in
      (or_os answer (λ u. u), k')

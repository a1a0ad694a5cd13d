-- ===== src/Uffd/Setup.antt =====
-- rung-03-uffd/toy-uffd-raw/src/uffd.rs, `Uffd::new` and `Region::new`, and the set-up with which
-- `demo` and `run_config` of main.rs start. The system calls are parameters; what is acquired and
-- released is logged.
pub mod Opening
pub mod Balance
mod Tests
use Prim.Native.Nat.{bit_or}
use systems_study.Prelude.{ℕ, List, [], ◌∷◌, ◌++◌, Bool, true, false, ◌==◌, if◌then◌else◌}
use systems_study.Prelude.Result.{Result, ok, err, ◌>>=◌, ◌>>◌, bind_result, pure, fail, modify}
use systems_study.Prelude.Word.{mul64}
use systems_study.Prelude.Owned.{
  Resource, fd, mapped, acquired, opened, open_with, Backing, private_anonymous, Process, Owner,
  answered, call_with, keeping, require,
}
use systems_study.Uffd.{Syscalls, IoError, os, register_missing}
use systems_study.Uffd.Ioctl.{uffdio_api}
use systems_study.Uffd.Handler.{page}

-- The flags of Linux on x86-64, and the `errno` of a call that is not permitted.
abbrev pub o_cloexec : ℕ
o_cloexec = 0x80000

abbrev pub o_nonblock : ℕ
o_nonblock = 0x800

abbrev pub eperm : ℕ
eperm = 1

abbrev pub uffd_user_mode_only : ℕ
uffd_user_mode_only = 1

abbrev pub uffd_api : ℕ
uffd_api = 0xaa

pub record UffdioApi : Type 0 where
  pub api : ℕ
  pub features : ℕ
  pub ioctls : ℕ

pub record Uffd : Type 0 where
  pub raw : ℕ
  pub supported_ioctls : ℕ

pub record Region : Type 0 where
  pub ptr : ℕ
  pub len : ℕ

-- The panic of an assertion, or an error.
pub data SetupError : Type 0 where
  panic : SetupError
  io : IoError → SetupError

-- `channel` are the calls on a userfaultfd, `page_size` is `sysconf`.
pub record UffdCalls (K : Type 0) : Type 0 where
  pub userfaultfd : ℕ → K → Result ℕ ℕ × K
  pub api_ioctl : ℕ → ℕ → UffdioApi → K → Result ℕ UffdioApi × K
  pub channel : ℕ → Syscalls K
  pub page_size : K → ℕ × K
  pub mmap : ℕ → Backing → K → Result ℕ ℕ × K

abbrev pub Action : Type 0 → Type 0 → Type 0
Action K A = Owner K SetupError A

abbrev pub call : {K A : Type 0} → (K → Result ℕ A × K) → Action K A
call f = call_with (λ e. io (os e)) f

-- A call that gives a descriptor, from its answer.
abbrev pub opened_fd : {K : Type 0} → Process K → Result ℕ ℕ × K → Result SetupError ℕ × Process K
opened_fd p answer = opened (λ e. io (os e)) (λ n. fd n) p answer

-- `base` of `Uffd::new`.
abbrev pub open_flags : Bool → ℕ
open_flags non_blocking = if non_blocking then bit_or o_cloexec o_nonblock else o_cloexec

module _ {K : Type 0} (sys : UffdCalls K) where
  pub retry : ℕ → Action K (ℕ × Bool)
  retry base = do
    raw ← λ p. opened_fd p (sys.userfaultfd (bit_or base uffd_user_mode_only) p.kernel)
    pure (raw, true)

  -- What is made of the first answer: a refusal is tried again, for user mode only.
  pub fall_back : ℕ → Process K → Result ℕ ℕ × K → Result SetupError (ℕ × Bool) × Process K
  unfolding retry
  fall_back base p (ok raw, k) =
      (ok (raw, false), record p { kernel = k; log = p.log ++ acquired (fd raw) ∷ [] })
  fall_back base p (err e, k) =
      if e == eperm
      then retry base (record p { kernel = k })
      else (err (io (os e)), record p { kernel = k })

  pub open_fd : Bool → Action K (ℕ × Bool)
  unfolding fall_back
  open_fd non_blocking p =
      let base = open_flags non_blocking in fall_back base p (sys.userfaultfd base p.kernel)

  pub handshake : ℕ → Bool → Action K (Uffd × Bool)
  handshake raw restricted = do
    api ← call (sys.api_ioctl raw uffdio_api (record { api = uffd_api; features = 0; ioctls = 0 }))
    pure (record { raw = raw; supported_ioctls = api.ioctls }, restricted)

  pub new : Bool → Action K (Uffd × Bool)
  unfolding open_fd handshake
  new non_blocking = do a ← open_fd non_blocking; keeping (fd a.0) (handshake a.0 a.1)

  abbrev pub ask : (K → ℕ × K) → Action K ℕ
  ask f p = let (n, k) = f p.kernel in (ok n, record p { kernel = k })

  -- `Region::new`. The product wraps.
  pub new_region : ℕ → Action K Region
  new_region pages = do
    sys_page ← ask sys.page_size
    require (sys_page == page) panic
    ptr ←
        open_with (λ e. io (os e)) (λ ptr. mapped ptr (mul64 pages page))
          (sys.mmap (mul64 pages page) private_anonymous)
    pure (record { ptr = ptr; len = mul64 pages page })

  abbrev pub register : Uffd → Region → Action K ℕ
  register uffd region =
      call_with (λ e. io e) (register_missing (sys.channel uffd.raw) region.ptr region.len)

  pub registered : Uffd → Region → Action K (Uffd × Region)
  registered uffd region = do ioctls ← register uffd region; pure (uffd, region)

  -- `demo` up to the start of its handler: the descriptor first, then the region.
  pub map_for : ℕ → Uffd → Action K (Uffd × Region)
  unfolding new_region registered
  map_for pages uffd = do
    region ← new_region pages
    keeping (mapped region.ptr region.len) (registered uffd region)

  pub prepare_demo : ℕ → Action K (Uffd × Region)
  unfolding new map_for
  prepare_demo pages = do u ← new true; keeping (fd u.0.raw) (map_for pages u.0)

  -- `run_config` with a handler, up to its start: the region first, then the descriptor.
  pub open_for : Region → Action K (Uffd × Region)
  unfolding new registered
  open_for region = do u ← new true; keeping (fd u.0.raw) (registered u.0 region)

  pub prepare_config : ℕ → Action K (Uffd × Region)
  unfolding new_region open_for
  prepare_config pages = do
    region ← new_region pages
    keeping (mapped region.ptr region.len) (open_for region)

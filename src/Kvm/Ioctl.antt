-- ===== src/Kvm/Ioctl.antt =====
-- rung-01-kvm/toy-kvm-raw/src/kvm_sys.rs: the numbers of the ioctls, from direction, size, type and
-- number, and the names of the exits.
use Prim.Native.Nat.{bit_or}
use systems_study.Prelude.{ℕ, ◌*◌, ◌%◌, ◌^◌, ◌==◌, if◌then◌else◌}
use systems_study.Prelude.Word.{u32_mod}
use systems_study.Prelude.Text.{Text, text}

abbrev pub ioc_typeshift : ℕ
ioc_typeshift = 8

abbrev pub ioc_sizeshift : ℕ
ioc_sizeshift = 16

abbrev pub ioc_dirshift : ℕ
ioc_dirshift = 30

abbrev pub ioc_none : ℕ
ioc_none = 0

abbrev pub ioc_write : ℕ
ioc_write = 1

abbrev pub ioc_read : ℕ
ioc_read = 2

abbrev pub kvmio : ℕ
kvmio = 0xae

-- `<<` on a `u32` by less than its width.
abbrev pub shl32 : ℕ → ℕ → ℕ
shl32 x k = (x * 2 ^ k) % u32_mod

unfoldable pub ioc : ℕ → ℕ → ℕ → ℕ → ℕ
ioc dir ty nr size =
    bit_or
      (bit_or (bit_or (shl32 dir ioc_dirshift) (shl32 size ioc_sizeshift)) (shl32 ty ioc_typeshift))
      (shl32 nr 0)

unfoldable pub io : ℕ → ℕ
unfolding ioc
io nr = ioc ioc_none kvmio nr 0

unfoldable pub iow : ℕ → ℕ → ℕ
unfolding ioc
iow nr size = ioc ioc_write kvmio nr (size % u32_mod)

unfoldable pub ior : ℕ → ℕ → ℕ
unfolding ioc
ior nr size = ioc ioc_read kvmio nr (size % u32_mod)

-- The sizes that are asserted of the structures.
abbrev pub memory_region_size : ℕ
memory_region_size = 32

abbrev pub regs_size : ℕ
regs_size = 144

abbrev pub sregs_size : ℕ
sregs_size = 312

abbrev pub run_header_size : ℕ
run_header_size = 32

unfoldable pub kvm_get_api_version : ℕ
unfolding io
kvm_get_api_version = io 0x00

unfoldable pub kvm_create_vm : ℕ
unfolding io
kvm_create_vm = io 0x01

unfoldable pub kvm_check_extension : ℕ
unfolding io
kvm_check_extension = io 0x03

unfoldable pub kvm_get_vcpu_mmap_size : ℕ
unfolding io
kvm_get_vcpu_mmap_size = io 0x04

unfoldable pub kvm_set_user_memory_region : ℕ
unfolding iow
kvm_set_user_memory_region = iow 0x46 memory_region_size

unfoldable pub kvm_set_tss_addr : ℕ
unfolding io
kvm_set_tss_addr = io 0x47

unfoldable pub kvm_create_vcpu : ℕ
unfolding io
kvm_create_vcpu = io 0x41

unfoldable pub kvm_run : ℕ
unfolding io
kvm_run = io 0x80

unfoldable pub kvm_get_regs : ℕ
unfolding ior
kvm_get_regs = ior 0x81 regs_size

unfoldable pub kvm_set_regs : ℕ
unfolding iow
kvm_set_regs = iow 0x82 regs_size

unfoldable pub kvm_get_sregs : ℕ
unfolding ior
kvm_get_sregs = ior 0x83 sregs_size

unfoldable pub kvm_set_sregs : ℕ
unfolding iow
kvm_set_sregs = iow 0x84 sregs_size

abbrev pub kvm_cap_user_memory : ℕ
kvm_cap_user_memory = 3

-- The exits.
abbrev pub kvm_exit_unknown : ℕ
kvm_exit_unknown = 0

abbrev pub kvm_exit_io : ℕ
kvm_exit_io = 2

abbrev pub kvm_exit_hlt : ℕ
kvm_exit_hlt = 5

abbrev pub kvm_exit_mmio : ℕ
kvm_exit_mmio = 6

abbrev pub kvm_exit_shutdown : ℕ
kvm_exit_shutdown = 8

abbrev pub kvm_exit_fail_entry : ℕ
kvm_exit_fail_entry = 9

abbrev pub kvm_exit_intr : ℕ
kvm_exit_intr = 10

abbrev pub kvm_exit_internal_error : ℕ
kvm_exit_internal_error = 17

abbrev pub kvm_exit_io_in : ℕ
kvm_exit_io_in = 0

abbrev pub kvm_exit_io_out : ℕ
kvm_exit_io_out = 1

unfoldable pub exit_reason_name : ℕ → Text
exit_reason_name r =
    if r == kvm_exit_unknown
    then text "KVM_EXIT_UNKNOWN"
    else if r == kvm_exit_io
    then text "KVM_EXIT_IO"
    else if r == kvm_exit_hlt
    then text "KVM_EXIT_HLT"
    else if r == kvm_exit_mmio
    then text "KVM_EXIT_MMIO"
    else if r == kvm_exit_shutdown
    then text "KVM_EXIT_SHUTDOWN"
    else if r == kvm_exit_fail_entry
    then text "KVM_EXIT_FAIL_ENTRY"
    else if r == kvm_exit_intr
    then text "KVM_EXIT_INTR"
    else if r == kvm_exit_internal_error
    then text "KVM_EXIT_INTERNAL_ERROR"
    else text "unhandled exit reason"

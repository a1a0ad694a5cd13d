-- ===== src/Uffd/Ioctl.antt =====
-- rung-03-uffd/toy-uffd-raw/src/uffd_sys.rs: the numbers of the ioctls.
use Prim.Native.Nat.{bit_or}
use systems_study.Prelude.{ℕ, ◌%◌}
use systems_study.Prelude.Word.{u32_mod}
use systems_study.Kvm.Ioctl.{shl32}

abbrev pub ioc_read : ℕ
ioc_read = 2

abbrev pub ioc_write : ℕ
ioc_write = 1

abbrev pub uffdio : ℕ
uffdio = 0xaa

unfoldable pub ioc : ℕ → ℕ → ℕ → ℕ
ioc dir nr size =
    bit_or (bit_or (bit_or (shl32 dir 30) (shl32 (size % u32_mod) 16)) (shl32 uffdio 8))
      (shl32 nr 0)

unfoldable pub iowr : ℕ → ℕ → ℕ
unfolding ioc
iowr nr size = ioc (bit_or ioc_read ioc_write) nr size

unfoldable pub ior : ℕ → ℕ → ℕ
unfolding ioc
ior nr size = ioc ioc_read nr size

-- The sizes that are asserted of the structures.
abbrev pub api_size : ℕ
api_size = 24

abbrev pub range_size : ℕ
range_size = 16

abbrev pub register_size : ℕ
register_size = 32

abbrev pub copy_size : ℕ
copy_size = 40

abbrev pub zeropage_size : ℕ
zeropage_size = 32

unfoldable pub uffdio_api : ℕ
unfolding iowr
uffdio_api = iowr 0x3f api_size

unfoldable pub uffdio_register : ℕ
unfolding iowr
uffdio_register = iowr 0x00 register_size

unfoldable pub uffdio_unregister : ℕ
unfolding ior
uffdio_unregister = ior 0x01 range_size

unfoldable pub uffdio_wake : ℕ
unfolding ior
uffdio_wake = ior 0x02 range_size

unfoldable pub uffdio_copy : ℕ
unfolding iowr
uffdio_copy = iowr 0x03 copy_size

unfoldable pub uffdio_zeropage : ℕ
unfolding iowr
uffdio_zeropage = iowr 0x04 zeropage_size

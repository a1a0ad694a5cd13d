-- ===== src/Kvm/Setup.antt =====
-- `Vm::new` of rung-01-kvm/toy-kvm-raw/src/vmm.rs, with the owners of descriptors and mappings, and
-- the drop of a `Vm`. The system calls are parameters; what is acquired and released is logged.
pub mod Balance
mod Tests
use systems_study.Prelude.{
  ℕ, ◌%◌, Bool, true, false, not, ◌==◌, ltb, ◌&&◌, if◌then◌else◌, Option, none, some, List, [], ◌∷◌,
  ◌++◌,
}
use systems_study.Prelude.Result.{
  Result, ok, err, Method, ◌>>=◌, ◌>>◌, bind_result, pure, fail, modify,
}
use systems_study.Prelude.Owned.{
  Resource, fd, mapped, Event, acquired, released, Backing, private_anonymous, shared, Process,
  Owner, call_with, open_with, dropping, keeping, ignore, require,
}
use systems_study.Kvm.Ioctl.{
  kvm_get_api_version, kvm_check_extension, kvm_create_vm, kvm_set_tss_addr, kvm_create_vcpu,
  kvm_get_vcpu_mmap_size, kvm_set_user_memory_region, kvm_cap_user_memory, run_header_size,
}

abbrev pub tss_addr : ℕ
tss_addr = 0xfffbd000

abbrev pub expected_api_version : ℕ
expected_api_version = 12

pub record Mapping : Type 0 where
  pub ptr : ℕ
  pub len : ℕ

pub record MemoryRegion : Type 0 where
  pub slot : ℕ
  pub flags : ℕ
  pub guest_phys_addr : ℕ
  pub memory_size : ℕ
  pub userspace_addr : ℕ

-- The fields in the order of their declaration.
pub record Vm : Type 0 where
  pub run_map : Mapping
  pub mem : Mapping
  pub vcpu : ℕ
  pub vm : ℕ
  pub kvm : ℕ
  pub mem_size : ℕ

-- The panic of the assertion, an `errno`, or an error of the program's own.
pub data SetupError : Type 0 where
  panic : SetupError
  os : ℕ → SetupError
  unexpected_version : ℕ → SetupError
  no_user_memory : SetupError
  implausible_size : ℕ → SetupError

-- The calls on the kernel's state; a failure is an `errno`.
pub record KvmCalls (K : Type 0) : Type 0 where
  pub open_kvm : K → Result ℕ ℕ × K
  pub ioctl_val : ℕ → ℕ → ℕ → K → Result ℕ ℕ × K
  pub ioctl_region : ℕ → ℕ → MemoryRegion → K → Result ℕ ℕ × K
  pub mmap : ℕ → Backing → K → Result ℕ ℕ × K

abbrev pub Action : Type 0 → Type 0 → Type 0
Action K A = Owner K SetupError A

abbrev pub call : {K A : Type 0} → (K → Result ℕ A × K) → Action K A
call f = call_with os f

-- A call that gives a descriptor.
abbrev pub call_fd : {K : Type 0} → (K → Result ℕ ℕ × K) → Action K ℕ
call_fd f = open_with os (λ n. fd n) f

module _ {K : Type 0} (sys : KvmCalls K) where
  unfoldable pub anonymous : ℕ → Action K Mapping
  anonymous len = do
    ptr ← open_with os (λ ptr. mapped ptr len) (sys.mmap len private_anonymous)
    pure (record { ptr = ptr; len = len })

  unfoldable pub shared_fd : ℕ → ℕ → Action K Mapping
  shared_fd raw len = do
    ptr ← open_with os (λ ptr. mapped ptr len) (sys.mmap len (shared raw))
    pure (record { ptr = ptr; len = len })

  -- From the communication page on.
  unfoldable pub map_run : ℕ → ℕ → Action K Mapping
  unfolding shared_fd
  map_run kvm vcpu = do
    run_size ← call (sys.ioctl_val kvm kvm_get_vcpu_mmap_size 0)
    require (not (ltb run_size run_header_size)) (implausible_size run_size)
    shared_fd vcpu run_size

  unfoldable pub with_vcpu : ℕ → ℕ → ℕ → Mapping → ℕ → Action K Vm
  unfolding map_run
  with_vcpu mem_size kvm vm mem vcpu = do
    run_map ← map_run kvm vcpu
    pure (record {
      run_map = run_map;
      mem = mem;
      vcpu = vcpu;
      vm = vm;
      kvm = kvm;
      mem_size = mem_size;
    })

  unfoldable pub with_memory : ℕ → ℕ → ℕ → Mapping → Action K Vm
  unfolding with_vcpu
  with_memory mem_size kvm vm mem = do
    installed ← call (
        sys.ioctl_region vm kvm_set_user_memory_region (record {
          slot = 0;
          flags = 0;
          guest_phys_addr = 0;
          memory_size = mem_size;
          userspace_addr = mem.ptr;
        }))
    vcpu ← call_fd (sys.ioctl_val vm kvm_create_vcpu 0)
    keeping (fd vcpu) (with_vcpu mem_size kvm vm mem vcpu)

  unfoldable pub with_vm : ℕ → ℕ → ℕ → Action K Vm
  unfolding with_memory anonymous
  with_vm mem_size kvm vm = do
    ignore (call (sys.ioctl_val vm kvm_set_tss_addr tss_addr))
    mem ← anonymous mem_size
    keeping (mapped mem.ptr mem.len) (with_memory mem_size kvm vm mem)

  unfoldable pub with_kvm : ℕ → ℕ → Action K Vm
  unfolding with_vm
  with_kvm mem_size kvm = do
    version ← call (sys.ioctl_val kvm kvm_get_api_version 0)
    require (version == expected_api_version) (unexpected_version version)
    has_user_mem ← call (sys.ioctl_val kvm kvm_check_extension kvm_cap_user_memory)
    require (not (has_user_mem == 0)) no_user_memory
    vm ← call_fd (sys.ioctl_val kvm kvm_create_vm 0)
    keeping (fd vm) (with_vm mem_size kvm vm)

  unfoldable pub new : ℕ → Action K Vm
  unfolding with_kvm
  new mem_size = do
    require (mem_size % 4096 == 0 && ltb 0 mem_size) panic
    kvm ← call_fd sys.open_kvm
    keeping (fd kvm) (with_kvm mem_size kvm)

-- The drop of a `Vm`: its fields, in their order.
unfoldable pub drop_vm : Vm → List Event
drop_vm v =
    released (mapped v.run_map.ptr v.run_map.len)
    ∷ released (mapped v.mem.ptr v.mem.len)
    ∷ released (fd v.vcpu)
    ∷ released (fd v.vm)
    ∷ released (fd v.kvm)
    ∷ []

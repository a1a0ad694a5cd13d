-- ===== src/Kvm/Regs.antt =====
-- `set_real_mode_regs` of rung-01-kvm/toy-kvm-raw/src/vmm.rs, and the register structures of
-- kvm_sys.rs. The three ioctls on the vCPU are parameters; the error is an `errno`.
pub mod RealMode
mod Tests
use systems_study.Prelude.{ℕ, ◌≡◌, refl, ap, ◌∙◌, sym, List, [], ◌∷◌, replicate, ◌⊎◌, inl, inr}
use systems_study.Prelude.Result.{
  Result, Result-cases, ok, err, Method, ◌>>=◌, ◌>>◌, bind_result, pure, state,
}

pub record KvmSegment : Type 0 where
  pub base : ℕ
  pub limit : ℕ
  pub selector : ℕ
  pub type_ : ℕ
  pub present : ℕ
  pub dpl : ℕ
  pub db : ℕ
  pub s : ℕ
  pub l : ℕ
  pub g : ℕ
  pub avl : ℕ
  pub unusable : ℕ
  pub padding : ℕ

pub record KvmDtable : Type 0 where
  pub base : ℕ
  pub limit : ℕ
  pub padding : List ℕ

pub record KvmSregs : Type 0 where
  pub cs : KvmSegment
  pub ds : KvmSegment
  pub es : KvmSegment
  pub fs : KvmSegment
  pub gs : KvmSegment
  pub ss : KvmSegment
  pub tr : KvmSegment
  pub ldt : KvmSegment
  pub gdt : KvmDtable
  pub idt : KvmDtable
  pub cr0 : ℕ
  pub cr2 : ℕ
  pub cr3 : ℕ
  pub cr4 : ℕ
  pub cr8 : ℕ
  pub efer : ℕ
  pub apic_base : ℕ
  pub interrupt_bitmap : List ℕ

pub record KvmRegs : Type 0 where
  pub rax : ℕ
  pub rbx : ℕ
  pub rcx : ℕ
  pub rdx : ℕ
  pub rsi : ℕ
  pub rdi : ℕ
  pub rsp : ℕ
  pub rbp : ℕ
  pub r8 : ℕ
  pub r9 : ℕ
  pub r10 : ℕ
  pub r11 : ℕ
  pub r12 : ℕ
  pub r13 : ℕ
  pub r14 : ℕ
  pub r15 : ℕ
  pub rip : ℕ
  pub rflags : ℕ

-- The body of the loop over the segments.
pub flatten : KvmSegment → KvmSegment
flatten seg = record seg { base = 0; selector = 0 }

pub flat_sregs : KvmSregs → KvmSregs
unfolding flatten
flat_sregs s = record s {
  cs = flatten s.cs;
  ds = flatten s.ds;
  es = flatten s.es;
  fs = flatten s.fs;
  gs = flatten s.gs;
  ss = flatten s.ss;
}

pub entry_regs : ℕ → KvmRegs
entry_regs entry = record {
  rax = 0;
  rbx = 0;
  rcx = 0;
  rdx = 0;
  rsi = 0;
  rdi = 0;
  rsp = 0;
  rbp = 0;
  r8 = 0;
  r9 = 0;
  r10 = 0;
  r11 = 0;
  r12 = 0;
  r13 = 0;
  r14 = 0;
  r15 = 0;
  rip = entry;
  rflags = 2;
}

-- `KVM_GET_SREGS`, `KVM_SET_SREGS` and `KVM_SET_REGS`.
pub record RegisterIoctls (V : Type 0) : Type 0 where
  pub get_sregs : Method V ℕ KvmSregs
  pub set_sregs : KvmSregs → Method V ℕ (Unit {0})
  pub set_regs : KvmRegs → Method V ℕ (Unit {0})

pub set_real_mode_regs : {V : Type 0} → RegisterIoctls V → ℕ → Method V ℕ (Unit {0})
unfolding flat_sregs entry_regs
set_real_mode_regs k entry = do
  s ← k.get_sregs
  k.set_sregs (flat_sregs s)
  k.set_regs (entry_regs entry)

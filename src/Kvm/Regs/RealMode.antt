-- ===== src/Kvm/Regs/RealMode.antt =====
-- The real mode that `set_real_mode_regs` of rung-01-kvm/toy-kvm-raw/src/vmm.rs leaves a vCPU in.
use systems_study.Prelude.{ℕ, ◌≡◌, refl}
use systems_study.Prelude.Result.{Result, ok, err, Method, ◌>>◌, bind_result}
use systems_study.Kvm.Regs.{
  KvmSegment, KvmSregs, KvmRegs, flatten, flat_sregs, entry_regs, RegisterIoctls,
  set_real_mode_regs,
}

-- `t` starts at 0 with a null selector, and has every other field of `seg`.
pub record IsFlat (seg t : KvmSegment) : Type 0 where
  pub base : t.base ≡ 0
  pub selector : t.selector ≡ 0
  pub limit : t.limit ≡ seg.limit
  pub type_ : t.type_ ≡ seg.type_
  pub present : t.present ≡ seg.present
  pub dpl : t.dpl ≡ seg.dpl
  pub db : t.db ≡ seg.db
  pub s : t.s ≡ seg.s
  pub l : t.l ≡ seg.l
  pub g : t.g ≡ seg.g
  pub avl : t.avl ≡ seg.avl
  pub unusable : t.unusable ≡ seg.unusable
  pub padding : t.padding ≡ seg.padding

flatten-IsFlat : (seg : KvmSegment) → IsFlat seg (flatten seg)
unfolding flatten
flatten-IsFlat seg = record {
  base = refl;
  selector = refl;
  limit = refl;
  type_ = refl;
  present = refl;
  dpl = refl;
  db = refl;
  s = refl;
  l = refl;
  g = refl;
  avl = refl;
  unusable = refl;
  padding = refl;
}

-- Real mode at `entry`: the six segments are flat and keep their other fields, and the remaining
-- system registers are those of `s`; every general register is 0 but `rip` and the reserved flag.
pub record IsRealMode (entry : ℕ) (s s' : KvmSregs) (r : KvmRegs) : Type 0 where
  pub cs : IsFlat s.cs s'.cs
  pub ds : IsFlat s.ds s'.ds
  pub es : IsFlat s.es s'.es
  pub fs : IsFlat s.fs s'.fs
  pub gs : IsFlat s.gs s'.gs
  pub ss : IsFlat s.ss s'.ss
  pub tr : s'.tr ≡ s.tr
  pub ldt : s'.ldt ≡ s.ldt
  pub gdt : s'.gdt ≡ s.gdt
  pub idt : s'.idt ≡ s.idt
  pub cr0 : s'.cr0 ≡ s.cr0
  pub cr2 : s'.cr2 ≡ s.cr2
  pub cr3 : s'.cr3 ≡ s.cr3
  pub cr4 : s'.cr4 ≡ s.cr4
  pub cr8 : s'.cr8 ≡ s.cr8
  pub efer : s'.efer ≡ s.efer
  pub apic_base : s'.apic_base ≡ s.apic_base
  pub interrupt_bitmap : s'.interrupt_bitmap ≡ s.interrupt_bitmap
  pub rax : r.rax ≡ 0
  pub rbx : r.rbx ≡ 0
  pub rcx : r.rcx ≡ 0
  pub rdx : r.rdx ≡ 0
  pub rsi : r.rsi ≡ 0
  pub rdi : r.rdi ≡ 0
  pub rsp : r.rsp ≡ 0
  pub rbp : r.rbp ≡ 0
  pub r8 : r.r8 ≡ 0
  pub r9 : r.r9 ≡ 0
  pub r10 : r.r10 ≡ 0
  pub r11 : r.r11 ≡ 0
  pub r12 : r.r12 ≡ 0
  pub r13 : r.r13 ≡ 0
  pub r14 : r.r14 ≡ 0
  pub r15 : r.r15 ≡ 0
  pub rip : r.rip ≡ entry
  pub rflags : r.rflags ≡ 2

flat-IsRealMode : (entry : ℕ) (s : KvmSregs) → IsRealMode entry s (flat_sregs s) (entry_regs entry)
unfolding flat_sregs entry_regs
flat-IsRealMode entry s = record {
  cs = flatten-IsFlat s.cs;
  ds = flatten-IsFlat s.ds;
  es = flatten-IsFlat s.es;
  fs = flatten-IsFlat s.fs;
  gs = flatten-IsFlat s.gs;
  ss = flatten-IsFlat s.ss;
  tr = refl;
  ldt = refl;
  gdt = refl;
  idt = refl;
  cr0 = refl;
  cr2 = refl;
  cr3 = refl;
  cr4 = refl;
  cr8 = refl;
  efer = refl;
  apic_base = refl;
  interrupt_bitmap = refl;
  rax = refl;
  rbx = refl;
  rcx = refl;
  rdx = refl;
  rsi = refl;
  rdi = refl;
  rsp = refl;
  rbp = refl;
  r8 = refl;
  r9 = refl;
  r10 = refl;
  r11 = refl;
  r12 = refl;
  r13 = refl;
  r14 = refl;
  r15 = refl;
  rip = refl;
  rflags = refl;
}

-- A kernel whose vCPU is its two register files: `sregs_of` and `regs_of` read them, and a
-- successful ioctl reads or writes the one that it names and leaves the other.
pub record IsRegisterFile {V : Type 0} (k : RegisterIoctls V) (sregs_of : V → KvmSregs)
    (regs_of : V → KvmRegs) : Type 0 where
  pub got :
      (v v' : V) (s : KvmSregs)
      → k.get_sregs v ≡ (ok s, v')
      → (s ≡ sregs_of v) × (sregs_of v' ≡ sregs_of v)
  pub set_system : (v v' : V) (s : KvmSregs) → k.set_sregs s v ≡ (ok tt, v') → sregs_of v' ≡ s
  pub set_general :
      (v v' : V) (r : KvmRegs)
      → k.set_regs r v ≡ (ok tt, v')
      → (regs_of v' ≡ r) × (sregs_of v' ≡ sregs_of v)

result_ok :
    {V A : Type 0} (r : Result ℕ A × V) (f : A → Method V ℕ (Unit {0})) (v : V)
    → bind_result r f ≡ (ok tt, v)
    → (a : A) × (r ≡ (ok a, r.1)) × (f a r.1 ≡ (ok tt, v))
result_ok (ok a, w) f v e = (a, refl, e)
result_ok (err x, w) f v e = cc

-- Where `set_real_mode_regs` succeeds on a kernel that keeps the registers it is given, the six
-- segments of the vCPU have base and selector 0 and their other fields as before, every other system
-- register is as it was before, `rip` is `entry`, `rflags` is 2, and every other general register is 0.
pub set_real_mode_regs_lem :
    {V : Type 0} (k : RegisterIoctls V) (sregs_of : V → KvmSregs) (regs_of : V → KvmRegs)
    (entry : ℕ) (v v' : V)
    → IsRegisterFile k sregs_of regs_of
    → set_real_mode_regs k entry v ≡ (ok tt, v')
    → IsRealMode entry (sregs_of v) (sregs_of v') (regs_of v')
unfolding set_real_mode_regs
set_real_mode_regs_lem k sregs_of regs_of entry v v' file e =
    let (s, get, rest) =
      result_ok (k.get_sregs v) (λ s. k.set_sregs (flat_sregs s) >> k.set_regs (entry_regs entry))
        v' e in
    let w = (k.get_sregs v).1 in
    let (u, set, last) =
      result_ok (k.set_sregs (flat_sregs s) w) (λ u. k.set_regs (entry_regs entry)) v' rest in
    let w' = (k.set_sregs (flat_sregs s) w).1 in
    let read = file.got v w s get in
    let system = file.set_system w w' (flat_sregs s) set in
    let general = file.set_general w' v' (entry_regs entry) last in
    rw (general.0, general.1, system, read.0) (flat-IsRealMode entry (sregs_of v))

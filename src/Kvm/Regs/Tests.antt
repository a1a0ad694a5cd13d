-- ===== src/Kvm/Regs/Tests.antt =====
-- A vCPU that is its two register files, put into real mode at 0x1000.
use systems_study.Prelude.{◌≡◌, refl, sym, ap, []}
use systems_study.Prelude.Result.{ok}
use systems_study.Kvm.Regs.{
  KvmSegment, KvmDtable, KvmSregs, KvmRegs, RegisterIoctls, set_real_mode_regs, flat_sregs,
  entry_regs,
}
use systems_study.Kvm.Regs.RealMode.{IsRegisterFile, IsRealMode, set_real_mode_regs_lem}

abbrev Vcpu : Type 0
Vcpu = KvmSregs × KvmRegs

abbrev vcpu_ioctls : RegisterIoctls Vcpu
vcpu_ioctls = record {
  get_sregs = λ v. (ok v.0, v);
  set_sregs = λ s v. (ok tt, (s, v.1));
  set_regs = λ r v. (ok tt, (v.0, r));
}

abbrev reset_segment : KvmSegment
reset_segment = record {
  base = 0xffff0000;
  limit = 0xffff;
  selector = 0xf000;
  type_ = 11;
  present = 1;
  dpl = 0;
  db = 0;
  s = 1;
  l = 0;
  g = 0;
  avl = 0;
  unusable = 0;
  padding = 0;
}

abbrev no_table : KvmDtable
no_table = record { base = 0; limit = 0xffff; padding = [] }

abbrev reset_sregs : KvmSregs
reset_sregs = record {
  cs = reset_segment;
  ds = reset_segment;
  es = reset_segment;
  fs = reset_segment;
  gs = reset_segment;
  ss = reset_segment;
  tr = reset_segment;
  ldt = reset_segment;
  gdt = no_table;
  idt = no_table;
  cr0 = 0x60000010;
  cr2 = 0;
  cr3 = 0;
  cr4 = 0;
  cr8 = 0;
  efer = 0;
  apic_base = 0xfee00900;
  interrupt_bitmap = [];
}

abbrev reset_vcpu : Vcpu
reset_vcpu = (reset_sregs, entry_regs 0xfff0)

abbrev started_vcpu : Vcpu
started_vcpu = (flat_sregs reset_sregs, entry_regs 0x1000)

vcpu_ioctls-IsRegisterFile : IsRegisterFile vcpu_ioctls (λ v. v.0) (λ v. v.1)
vcpu_ioctls-IsRegisterFile = record {
  got = λ v v' s e. (cc, ap (λ r. r.1.0) (sym e));
  set_system = λ v v' s e. ap (λ r. r.1.0) (sym e);
  set_general = λ v v' r e. (ap (λ r. r.1.1) (sym e), ap (λ r. r.1.0) (sym e));
}

starts : set_real_mode_regs vcpu_ioctls 0x1000 reset_vcpu ≡ (ok tt, started_vcpu)
unfolding set_real_mode_regs
starts = refl

set_real_mode_regs_lem_example :
    IsRealMode 0x1000 reset_sregs (flat_sregs reset_sregs) (entry_regs 0x1000)
set_real_mode_regs_lem_example =
    set_real_mode_regs_lem vcpu_ioctls (λ v. v.0) (λ v. v.1) 0x1000 reset_vcpu started_vcpu
      vcpu_ioctls-IsRegisterFile starts

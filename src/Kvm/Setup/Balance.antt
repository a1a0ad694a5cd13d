-- ===== src/Kvm/Setup/Balance.antt =====
-- On every error path of `Vm::new` all that was acquired is released again, the last one first.
use systems_study.Prelude.{
  ℕ, ◌%◌, ◌≤◌, ◌≡◌, refl, ◌∙◌, arith, true, not, ◌==◌, ltb, ◌&&◌, List, [], ◌∷◌, ◌++◌,
}
use systems_study.Prelude.Owned.{fd, mapped, Event, acquired, private_anonymous, shared, Process}
use systems_study.Prelude.Owned.Tidy.{
  Tidy, Tidy-answered, Tidy-require, Tidy-opened, Tidy-keeping, Tidy-weaken, Tidy-bind, grown,
  grown_lem, log-answered,
}
use systems_study.Kvm.Setup.{
  Mapping, Vm, os, unexpected_version, no_user_memory, implausible_size, panic, KvmCalls, call,
  anonymous, shared_fd, map_run, with_vcpu, with_memory, with_vm, with_kvm, new,
  expected_api_version, tss_addr,
}
use systems_study.Kvm.Ioctl.{
  kvm_get_api_version, kvm_check_extension, kvm_create_vm, kvm_set_tss_addr, kvm_create_vcpu,
  kvm_set_user_memory_region, kvm_get_vcpu_mmap_size, kvm_cap_user_memory, run_header_size,
}

-- What a virtual machine holds, in the order of its acquisition.
abbrev pub holdings : Vm → List Event
holdings v =
    acquired (fd v.kvm)
    ∷ acquired (fd v.vm)
    ∷ acquired (mapped v.mem.ptr v.mem.len)
    ∷ acquired (fd v.vcpu)
    ∷ acquired (mapped v.run_map.ptr v.run_map.len)
    ∷ []

-- What `Vm::new` promises of the machine: its memory has the size asked for, the communication page
-- holds at least its header, and what was acquired since the log `b` is what the machine holds.
abbrev pub Built : ℕ → List Event → Vm → List Event → Type 0
Built mem_size b v log =
    (log ≡ b ++ holdings v)
    × (v.mem_size ≡ mem_size)
    × (v.mem.len ≡ mem_size)
    × (run_header_size ≤ v.run_map.len)

-- A mapping of `len` bytes has been acquired, and nothing else.
abbrev Mapped : ℕ → List Event → Mapping → List Event → Type 0
Mapped len l m log = (log ≡ l ++ acquired (mapped m.ptr m.len) ∷ []) × (m.len ≡ len)

not-ltb : (m n : ℕ) → not (ltb m n) ≡ true → n ≤ m
not-ltb m n h = ground arith

at_least : {m n : ℕ} → m ≡ n → run_header_size ≤ n → run_header_size ≤ m
at_least e h = omega arith

module _ {K : Type 0} (sys : KvmCalls K) (l : List Event) where
  anonymous-Tidy :
      (len : ℕ) (p : Process K) → p.log ≡ l → Tidy (Mapped len l) l (anonymous sys len p)
  unfolding anonymous
  anonymous-Tidy len p e =
      Tidy-opened os (Mapped len l) l (λ ptr. mapped ptr len) p
        (sys.mmap len private_anonymous p.kernel) _ e λ ptr q _ e'. (e', refl)

  shared_fd-Tidy :
      (vcpu len : ℕ) (p : Process K) → p.log ≡ l → Tidy (Mapped len l) l (shared_fd sys vcpu len p)
  unfolding shared_fd
  shared_fd-Tidy vcpu len p e =
      Tidy-opened os (Mapped len l) l (λ ptr. mapped ptr len) p
        (sys.mmap len (shared vcpu) p.kernel) _ e λ ptr q _ e'. (e', refl)

  map_run-Tidy :
      (kvm vcpu : ℕ) (p : Process K)
      → p.log ≡ l
      → Tidy
          (λ m log. (log ≡ l ++ acquired (mapped m.ptr m.len) ∷ []) × (run_header_size ≤ m.len))
          l
          (map_run sys kvm vcpu p)
  unfolding map_run
  map_run-Tidy kvm vcpu p e =
      Tidy-answered os _ l p (sys.ioctl_val kvm kvm_get_vcpu_mmap_size 0 p.kernel) _ e λ n q e'.
        Tidy-require _ l (not (ltb n run_header_size)) (implausible_size n) _ q e' λ large.
          Tidy-weaken (Mapped n l) _ (shared_fd sys vcpu n q) refl
            (λ m log h. (h.0, at_least h.1 (not-ltb n run_header_size large)))
            (shared_fd-Tidy vcpu n q e')

module _ {K : Type 0} (sys : KvmCalls K) (b : List Event) (kvm mem_size : ℕ) where
  with_vcpu-Tidy :
      (vm vcpu : ℕ) (mem : Mapping) (p : Process K)
      → mem.len ≡ mem_size
      → p.log ≡ grown b (fd kvm ∷ fd vm ∷ mapped mem.ptr mem.len ∷ fd vcpu ∷ [])
      → Tidy
          (Built mem_size b)
          (grown b (fd kvm ∷ fd vm ∷ mapped mem.ptr mem.len ∷ fd vcpu ∷ []))
          (with_vcpu sys mem_size kvm vm mem vcpu p)
  unfolding with_vcpu
  with_vcpu-Tidy vm vcpu mem p size e =
      Tidy-bind _ _ _ (map_run sys kvm vcpu p) _ (map_run-Tidy sys _ kvm vcpu p e) λ m q h. (
        h.0
            ∙ grown_lem b
                (fd kvm ∷ fd vm ∷ mapped mem.ptr mem.len ∷ fd vcpu ∷ mapped m.ptr m.len ∷ []),
        refl,
        size,
        h.1,
      )

  with_memory-Tidy :
      (vm : ℕ) (mem : Mapping) (p : Process K)
      → mem.len ≡ mem_size
      → p.log ≡ grown b (fd kvm ∷ fd vm ∷ mapped mem.ptr mem.len ∷ [])
      → Tidy
          (Built mem_size b)
          (grown b (fd kvm ∷ fd vm ∷ mapped mem.ptr mem.len ∷ []))
          (with_memory sys mem_size kvm vm mem p)
  unfolding with_memory
  with_memory-Tidy vm mem p size e =
      Tidy-answered os _ _ p (sys.ioctl_region vm kvm_set_user_memory_region _ p.kernel) _ e
        λ _ q e'.
          Tidy-opened os _ _ (λ n. fd n) q (sys.ioctl_val vm kvm_create_vcpu 0 q.kernel) _ e'
            λ vcpu t _ e2.
              Tidy-keeping _ _ (fd vcpu) (with_vcpu sys mem_size kvm vm mem vcpu) t
                (with_vcpu-Tidy vm vcpu mem t size e2)

  with_vm-Tidy :
      (vm : ℕ) (p : Process K)
      → p.log ≡ grown b (fd kvm ∷ fd vm ∷ [])
      → Tidy (Built mem_size b) (grown b (fd kvm ∷ fd vm ∷ [])) (with_vm sys mem_size kvm vm p)
  unfolding with_vm
  with_vm-Tidy vm p e =
      let noted : Process K = (call (sys.ioctl_val vm kvm_set_tss_addr tss_addr) p).1 in
      Tidy-bind _ _ _ (anonymous sys mem_size noted) _
        (anonymous-Tidy sys _ mem_size noted (log-answered os p _ ∙ e))
        λ mem q h.
          Tidy-keeping _ _ (mapped mem.ptr mem.len) (with_memory sys mem_size kvm vm mem) q
            (with_memory-Tidy vm mem q h.1 h.0)

  with_kvm-Tidy :
      (p : Process K)
      → p.log ≡ grown b (fd kvm ∷ [])
      → Tidy (Built mem_size b) (grown b (fd kvm ∷ [])) (with_kvm sys mem_size kvm p)
  unfolding with_kvm
  with_kvm-Tidy p e =
      Tidy-answered os _ _ p (sys.ioctl_val kvm kvm_get_api_version 0 p.kernel) _ e λ version q e1.
        Tidy-require _ _ (version == expected_api_version) (unexpected_version version) _ q e1 λ _.
          Tidy-answered os _ _ q
            (sys.ioctl_val kvm kvm_check_extension kvm_cap_user_memory q.kernel) _ e1
            λ n t e2. Tidy-require _ _ (not (n == 0)) no_user_memory _ t e2 λ _.
              Tidy-opened os _ _ (λ n. fd n) t (sys.ioctl_val kvm kvm_create_vm 0 t.kernel) _ e2
                λ vm u _ e3.
                  Tidy-keeping _ _ (fd vm) (with_vm sys mem_size kvm vm) u (with_vm-Tidy vm u e3)

-- Whatever the kernel answers, `Vm::new` either returns a virtual machine, and then the process has
-- acquired exactly what that machine holds (the descriptors of `/dev/kvm`, of the VM and of the vCPU,
-- the guest memory and the communication page), its memory has the size asked for and its
-- communication page holds at least the header; or it stops with an error or with the panic of its
-- assertion, and then all that it had acquired is released again, the last one first.
pub new-Tidy :
    {K : Type 0} (sys : KvmCalls K) (mem_size : ℕ) (p : Process K)
    → Tidy (Built mem_size p.log) p.log (new sys mem_size p)
unfolding new
new-Tidy sys mem_size p =
    Tidy-require _ p.log (mem_size % 4096 == 0 && ltb 0 mem_size) panic _ p refl λ _.
      Tidy-opened os _ p.log (λ n. fd n) p (sys.open_kvm p.kernel) _ refl
        λ kvm q _ e.
          Tidy-keeping _ p.log (fd kvm) (with_kvm sys mem_size kvm) q
            (with_kvm-Tidy sys p.log kvm mem_size q e)

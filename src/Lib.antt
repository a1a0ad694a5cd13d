-- ===== src/Lib.antt =====
-- Verification of the systems-study repository: the virtqueue of rung-02-virtio, the virtual machine
-- monitor of rung-01-kvm and the userfaultfd channel of rung-03-uffd, in their hand-written versions.
--
-- The program's parts and the files that model them:
--
-- Virtio is rung-02-virtio/toy-virtq-raw/src. Virtio/Mem.antt is mem.rs: the region that driver and
-- device share is a list of bytes, and `range` is the one bounds check. Virtio/Layout.antt is
-- layout.rs: the addresses of the rings and `need_event`. Virtio/Chain.antt is `ChainIter` of
-- device.rs, `next` with its guards in their order, and the collecting loop of `Device::process`.
-- Virtio/Device.antt holds the other methods of `Device`, and Virtio/Device/Process.antt the whole of
-- `process`. Virtio/Driver.antt is driver.rs, with `add_chain` in Virtio/Driver/Send.antt.
-- Virtio/Hostile.antt is `hostile_chains` of main.rs, which writes malformed chains and has a device
-- process them. Driver and device meet in the region only: the driver writes the descriptor table and
-- the available ring, the device the used ring and the buffers. Both are functions on a `World`, the
-- struct of the methods and the region, in a small state monad that keeps what was done before an
-- error.
--
-- Kvm is rung-01-kvm/toy-kvm-raw/src. Kvm/Device.antt is device.rs, Kvm/Guest.antt is `bench_program`
-- of guest.rs and `load` of vmm.rs, Kvm/Vmm.antt is `run` of vmm.rs, and Kvm/Regs.antt is
-- `set_real_mode_regs` with the structures of kvm_sys.rs. Kvm/Ioctl.antt is the encoding of the ioctl
-- numbers there. The run loop hands each exit to the devices; Kvm/Vmm/Steps.antt lists the exits as a
-- step relation. Kvm/Setup.antt is `Vm::new` in five
-- parts, one for each owner that an early return drops. Kvm/Bench.antt are the rounds of `run_bench`.
--
-- Uffd.antt is rung-03-uffd/toy-uffd-raw/src/uffd.rs: `read_event`, `read_event_spin`, `copy`,
-- `register_missing` and `wake`. Uffd/Handler.antt is the handler thread of main.rs there, which uses
-- them; Uffd/Restore.antt is its `demo` and `Region::touch`, and Uffd/Sweep.antt the rounds of
-- `run_config`: a load that faults parks its thread, and the handler's thread makes a pass.
-- Uffd/Setup.antt is `Uffd::new` and `Region::new` with the set-up of `demo` and `run_config`, and
-- Uffd/Ioctl.antt the ioctl numbers of uffd_sys.rs. Uffd/Topology.antt is topology.rs.
--
-- Prelude/Owned.antt is what both set-ups share: a process with the kernel and a log of what it
-- acquires and releases, where an early return drops the owners in scope.
--
-- Bench holds what the three programs share in their main.rs: Bench/Args.antt the command lines, and
-- Bench/Stats.antt the percentiles, whose `f64` products are rounded to 53 bits as the type does.
-- Texts are lists of code points (Prelude/Text.antt).
--
-- What stands outside the repository is a parameter: the closure `work` of `process` (a function with
-- its captured state explicit), `KVM_RUN` with the guest (a function on the vCPU and the
-- communication page), the ioctls on registers, and the system calls that open descriptors, map memory
-- and serve the userfaultfd. So are the files of sysfs, `madvise`, and the kernel under a fault. Of these the register ioctls
-- have a hypothesis, `IsRegisterFile`: a vCPU keeps the registers that it is given; the kernel under
-- a fault has `IsKernel`: a fault parks the thread and is reported, and a copy over absent pages
-- installs them and wakes it; and `madvise` has `Empties`: it succeeds and empties the region.
--
-- Numbers are natural numbers with the wrap of their width written out, as in the release build; an
-- assertion that panics is `none` or a fault. `usize` has 64 bits. Fences order nothing in one
-- thread, so that acquire, release and relaxed accesses are plain ones, and each method is one step
-- of an interleaving.
--
-- Fuel: the walk of a chain takes one call for each entry of the table and one more, which its time
-- to live makes enough; the loop of `process` takes more fuel than there are chains available;
-- `collect_used` takes more than there are entries published; the rounds of `run_bench` take as much
-- as there are samples; the loops of `run` and of `read_event_spin` run as long as the kernel makes
-- them, and their theorems speak of every fuel.
--
-- Not modelled: the other demonstrations and the measurements of the virtqueue and of the monitor
-- (main.rs) but for the rounds of `run_bench`, the versions on published crates, pinning a thread,
-- the trace and the timings of `run`, printing, the formatting of errors, and concurrency inside one
-- method.

pub mod Prelude
pub mod Virtio
pub mod Kvm
pub mod Uffd
pub mod Bench

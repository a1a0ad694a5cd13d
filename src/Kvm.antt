-- ===== src/Kvm.antt =====
-- The virtual machine monitor of rung-01-kvm/toy-kvm-raw.
pub mod Device
pub mod Guest
pub mod Vmm
pub mod Regs
pub mod Ioctl
pub mod Setup
pub mod Bench

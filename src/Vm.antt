-- ===== src/Vm.antt =====
-- internal/vm: admission, limits and identities of the machines.
pub mod IoLimits
pub mod IdPool
pub mod Admission
pub mod ConsoleLog
pub mod DiskGuard

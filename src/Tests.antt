-- ===== src/Tests.antt =====
-- The theorems at concrete inputs, on concrete hosts.
pub mod Hosts
pub mod Cgroups
pub mod Namespaces
pub mod Networks
pub mod Storages
pub mod Programs
pub mod Logs
pub mod Streams

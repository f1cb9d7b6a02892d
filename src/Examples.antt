-- ===== src/Examples.antt =====
-- Runs of the theorems at concrete kernels, disks and strings.
pub mod Kernels
pub mod Files
pub mod Devices
pub mod Directories
pub mod Texts
pub mod Programs
pub mod Messages

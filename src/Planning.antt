-- ===== src/Planning.antt =====
-- adoption.py: the plan for a guest, its service offering, its root disk and its manifest.
pub mod Text
pub mod Offering
pub mod Order
pub mod Only
pub mod Fit
pub mod Disk
pub mod Root
pub mod Size
pub mod Manifest
pub mod Canonical
pub mod Tests

-- ===== src/Registry.antt =====
-- adoption_registry.py: the claims on existing Proxmox guests, from reservation to release.
pub mod Validate
pub mod Write
pub mod Bind
pub mod Reserve
pub mod Target
pub mod Activation
pub mod Activate
pub mod State
pub mod Lease
pub mod Retire
pub mod Status
pub mod Calls
pub mod Adoption
pub mod Samples
mod Tests

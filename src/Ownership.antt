-- ===== src/Ownership.antt =====
-- adoption_ownership.py: the optional ownership record of an adoption manifest.
pub mod Validate
pub mod Again
pub mod Tests

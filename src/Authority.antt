-- ===== src/Authority.antt =====
-- adoption_authority.py: the one write authority, held by one owner until it expires.
pub mod Acquire
pub mod Exclusion
pub mod Grant
pub mod Mutex
mod Held
pub mod Callback
pub mod Authorized
pub mod Tests

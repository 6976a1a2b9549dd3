-- ===== src/Kve.antt =====
-- The key-value store (includes/kve): a byte memory, the table laid out in it, and its operations.
pub mod Memory
pub mod Storage
pub mod Spec
pub mod Table
pub mod RoundTrip
mod Tests

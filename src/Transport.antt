-- ===== src/Transport.antt =====
-- The package transport.
pub mod Varint
pub mod Header
pub mod Response
pub mod Socket
pub mod Dial
pub mod Listener
pub mod Link
mod Runs

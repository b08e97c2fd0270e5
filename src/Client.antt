-- ===== src/Client.antt =====
-- The package client.
pub mod Pool
pub mod Request
pub mod Calls
pub mod Exchange
pub mod Replies
pub mod Report
pub mod OnWire
pub mod WholeCall
pub mod Returned
pub mod Pipeline
pub mod Destroy
pub mod Connect
mod Runs
pub mod Call

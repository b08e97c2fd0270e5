-- ===== src/Server.antt =====
-- server/server.go and server/handler.go: how a server answers the packets of its connections.
-- The code of the user (`RpcItem.Call`), the registry's `Limiter` and the message codec are arguments.
pub mod Handler
pub mod Handle
pub mod Queue
pub mod Connection
pub mod Race
pub mod Workers
pub mod Start
pub mod Ticker
mod Runs

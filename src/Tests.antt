-- ===== src/Tests.antt =====
-- The theorems of the other modules at concrete inputs.
pub mod Frames
pub mod Server
pub mod Metadata
pub mod Calls
pub mod Client
pub mod Adapters
pub mod Exchanges
pub mod Transports
pub mod Handlers
pub mod Sockets
pub mod Connections
pub mod Rpcs

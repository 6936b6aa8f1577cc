-- ===== src/Router.antt =====
-- The router of Assignment2/src/router: one module for each of its C files.
pub mod Checksum
pub mod Interfaces
pub mod ArpCache
pub mod RoutingTable
pub mod Frame
pub mod Vns
pub mod Handler
pub mod PacketLog
pub mod Server
mod Tests

-- ===== src/Stcp.antt =====
-- The mysocket layer of Assignment3/src: one module for each part of its state.
pub mod HashTable
pub mod PacketQueue
pub mod TcpSum
mod Tests
pub mod World
pub mod Backlog
pub mod Queues
pub mod Calls
pub mod Transport
pub mod Framing

-- ===== src/Network.antt =====
-- The network library of network/: the parts that keep state.
pub mod Transfer
pub mod Messages
pub mod Reply
pub mod Accepting
pub mod Socket
pub mod Queue
pub mod Multiplexor
pub mod Pool

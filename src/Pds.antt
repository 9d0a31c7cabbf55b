-- ===== src/Pds.antt =====
-- uet_pds.c: the packet delivery sublayer of RUD and ROD.
pub mod Psn
pub mod State
pub mod Rx
pub mod Tx
pub mod Free
pub mod Ack
pub mod Deliver
pub mod Close
pub mod Nack
mod Tests

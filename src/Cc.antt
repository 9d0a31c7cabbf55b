-- ===== src/Cc.antt =====
-- Congestion control.
pub mod Path
pub mod Entropy
mod Tests

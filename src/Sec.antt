-- ===== src/Sec.antt =====
-- The transport security sublayer (TSS).
pub mod Rotation
mod Tests

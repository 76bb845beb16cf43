-- ===== src/Time.antt =====
-- The time functions of hawkc/common.c.
pub mod Ttoa
pub mod Parse

-- ===== src/Examples.antt =====
-- The example programs of crates/gr-capture/examples.
pub mod Fnscan
pub mod Sniff

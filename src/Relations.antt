-- ===== src/Relations.antt =====
-- zcc_diag/relations.py: what stands near a finding in time.
pub mod Events
pub mod Texts
pub mod Near

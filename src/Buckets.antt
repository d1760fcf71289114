-- ===== src/Buckets.antt =====
-- zcc_diag/line_buckets.py: every line by the product and by the subsystem it is about.
pub mod Rules
pub mod Lines
pub mod Report

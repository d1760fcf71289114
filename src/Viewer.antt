-- ===== src/Viewer.antt =====
-- zcc_diag/raw_view.py and zcc_diag/log_index.py: what the viewers show of an index.
pub mod Index
pub mod Build
pub mod Pages
pub mod Severity

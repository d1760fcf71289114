-- ===== src/Bundle.antt =====
-- zcc_diag/bundle.py: an untrusted ZIP archive becomes an extracted directory, or an error.
pub mod Names
pub mod Archive
pub mod Members
pub mod Extract
pub mod Workers

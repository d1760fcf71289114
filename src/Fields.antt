-- ===== src/Fields.antt =====
-- zcc_diag/fields.py: the tolerant scanner of JSON that is embedded in log lines, and its harvest.
pub mod Json
pub mod Harvest

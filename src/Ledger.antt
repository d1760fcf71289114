-- ===== src/Ledger.antt =====
-- zcc_diag/flow_ledger.py: what each connection moved, from the records written when it ends.
pub mod Closes
pub mod Store
pub mod Build
pub mod Rows
pub mod Running

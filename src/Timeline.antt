-- ===== src/Timeline.antt =====
-- zcc_diag/session_recon.py and zcc_diag/timeline.py: the lines of one identifier, and the lines around
-- an instant, by phase and lane.
pub mod Phases
pub mod Session
pub mod Window
pub mod Diff

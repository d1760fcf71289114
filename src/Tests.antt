-- ===== src/Tests.antt =====
-- Concrete runs of the models, and the theorems at concrete inputs that meet their hypotheses.
mod Engine
mod Query
mod Ledger
mod Timeline
mod Buckets
mod Relations
mod Catalog
mod Bundle
mod Packet
mod Capture
mod Fields
mod Viewer
mod Build

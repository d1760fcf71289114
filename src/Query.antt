-- ===== src/Query.antt =====
-- zcc_diag/query.py: the search language of the log index, from query text to matching lines.
pub mod Engine
pub mod Node
pub mod Events
pub mod Tokens
pub mod Atoms
pub mod Parser
pub mod Search

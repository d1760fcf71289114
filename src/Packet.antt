-- ===== src/Packet.antt =====
-- zcc_diag/pcap_review.py: the parsers of captured packets, on frames as lists of byte values.
pub mod Bytes
pub mod Reads
pub mod Frames
pub mod Full
pub mod Blocks
pub mod Text
pub mod Answers
pub mod Tls
pub mod Names
pub mod Endpoints
pub mod Summary
pub mod Signals
pub mod Scan
pub mod Streams

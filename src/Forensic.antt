-- ===== src/Forensic.antt =====
-- backend/app/forensic: the binary readers and the parsers built on them.
pub mod Bytes
pub mod Raises
pub mod Parser
pub mod Settle
pub mod Mft
pub mod Prefetch
pub mod Lnk

-- ===== src/Forensic/Lnk.antt =====
-- backend/app/forensic/lnk.py: the Shell Link parser.
pub mod LinkInfo
pub mod Blocks
pub mod Record
pub mod Contract
pub mod Bounds
mod Tests

-- ===== src/Forensic/Mft.antt =====
-- backend/app/forensic/ntfs_mft.py: the parser of NTFS volumes and $MFT record streams.
pub mod Layout
pub mod Fixup
pub mod Restores
pub mod Runs
pub mod RunList
pub mod RunsRoundTrip
pub mod Attributes
pub mod Table
pub mod Stream
pub mod DataRunFailures
pub mod AttributeFailures
pub mod Failures
pub mod Contract
pub mod MissingParsed
mod Tests

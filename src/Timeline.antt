-- ===== src/Timeline.antt =====
-- backend/app/services/timeline_normalizer.py and timeline_service.py: the events of a timeline.
pub mod Times
pub mod Identity
pub mod Normalizer
pub mod EventNames
pub mod Mappings
pub mod Keys
pub mod Unique
pub mod Every
pub mod Counts
pub mod NtfsPaths
pub mod Samples
mod Tests

-- ===== src/Correlation.antt =====
-- backend/app/correlation: the rules that associate the events of a timeline.
pub mod Paths
pub mod Events
pub mod Pairs
pub mod Matching
pub mod Grouping
pub mod Complete
pub mod Candidates
pub mod Rules
pub mod Asserts
pub mod Timed
pub mod Exactness
pub mod Registry
pub mod Samples
mod Tests

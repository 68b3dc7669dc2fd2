-- ===== src/Services.antt =====
-- backend/app/services: the services that keep the cases, the evidence and the findings.
pub mod Session
pub mod Cases
pub mod Findings
pub mod Runs
pub mod Timelines
pub mod Investigation

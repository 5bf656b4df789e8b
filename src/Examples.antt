-- ===== src/Examples.antt =====
-- Runs of the development at concrete inputs: a profile, a queue, and what the theorems say of them.
pub mod Runs
pub mod Tenants
pub mod Claims
pub mod Manager
pub mod Slugs
pub mod Recording
pub mod Access
pub mod Analysis
pub mod Artifacts
pub mod Recorder
pub mod Enqueue
pub mod Profiles
pub mod Gaps
pub mod Gateway
pub mod Guards

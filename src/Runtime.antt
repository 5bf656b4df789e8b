-- ===== src/Runtime.antt =====
-- The runtime package, src/skill_centric_agent_system/runtime.
pub mod Models
pub mod Artifacts
pub mod Enforcement
pub mod Store
pub mod Queue
pub mod FlightRecorder
pub mod Quotas
pub mod TenantStatus
pub mod Invariants
pub mod CapabilityGaps
pub mod Membership
pub mod ToolGateway
pub mod SafetyCompiler
pub mod ErrorTaxonomy

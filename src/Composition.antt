-- ===== src/Composition.antt =====
-- src/skill_centric_agent_system/composition: the analysis of a task, what is checked before a
-- profile is emitted, and the profile that is.
pub mod TaskAnalyzer
pub mod Analysis
pub mod TenantAccess
pub mod ProfileComposer
pub mod Profiles

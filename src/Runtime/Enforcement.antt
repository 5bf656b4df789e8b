-- ===== src/Runtime/Enforcement.antt =====
-- runtime/enforcement.py: the checks against one immutable Runtime Agent Profile.
pub mod Profile
pub mod Enforcer
pub mod Budget
pub mod Access
pub mod Refusal
pub mod Tenant
pub mod Grants
pub mod Isolation
pub mod TenantSafety

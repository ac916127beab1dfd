-- ===== src/Tenant.antt =====
-- The invitations of a tenant: src/core/tenant.
pub mod Values
pub mod Invitation
pub mod Invitations
mod Samples

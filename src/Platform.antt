-- ===== src/Platform.antt =====
-- The control plane (backend/app).
pub mod Jobs
pub mod Placement
pub mod Quotas
pub mod RateLimit
pub mod Rbac
pub mod Payments
pub mod Billing
pub mod Control
mod Tests

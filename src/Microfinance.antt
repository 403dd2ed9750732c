-- ===== src/Microfinance.antt =====
-- The microfinance application (microfinance/mf_app).
pub mod Tenant
pub mod Rbac
pub mod Ledger
pub mod Reports
pub mod Amortization
pub mod Savings
pub mod Loans
pub mod Books
pub mod Requests
mod Tests

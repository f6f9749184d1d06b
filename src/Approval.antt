-- ===== src/Approval.antt =====
-- app/approvals
pub mod Queries
pub mod Model
pub mod Repository
pub mod Service

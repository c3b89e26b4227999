-- ===== src/AuditLog.antt =====
-- The audit log (auditlog/models/auditlog_rule.py): what a rule logs of the calls that create, read,
-- write and delete records.
pub mod Differ
pub mod Lines
pub mod Logs
pub mod Methods
pub mod Rules
mod Tests

-- ===== src/AuditErrors/Tests.antt =====
-- Codes of lib/services/audit-errors.ts.

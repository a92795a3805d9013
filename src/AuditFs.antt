-- ===== src/AuditFs.antt =====
-- internal/adapters/auditfs: audit events as lines of JSON in files by date. Data is the record of
-- an event and its JSON, Writer the identifier of a writer, Files the directory of logs.
pub mod Data
pub mod Writer
pub mod Files

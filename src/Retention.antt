-- ===== src/Retention.antt =====
-- `RetentionRepository` of backend/reversing_lab/database/retention.py: the preview and the purge of one
-- principal's rows and files. The database is a record of tables (Retention.Database), a directory is a
-- dictionary from resolved paths to bytes. `Path.resolve`, the allowed roots and the files that cannot
-- be removed are parameters.
pub mod Database
pub mod Purge
pub mod Files
pub mod Tables
pub mod Survivors
pub mod Emptied
pub mod Referenced
pub mod Swept
pub mod Reclaimed
pub mod Removed
pub mod Reported
mod Tests

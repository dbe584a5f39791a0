-- ===== src/Backup.antt =====
-- scripts/k3s_sqlite_backup.py: an encrypted backup to a disk that is really mounted.
pub mod Table
pub mod Mounts
pub mod Publish
mod Tests

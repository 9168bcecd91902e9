-- ===== src/Store.antt =====
-- The repositories of backend/reversing_lab/database/repository.py other than that of the jobs.
pub mod Table
pub mod Binaries
pub mod Overlays
pub mod Projects
pub mod Audit
pub mod Regions
pub mod Runs
pub mod Ctf
mod Tests

-- ===== src/Jobs.antt =====
-- Background analysis jobs: the job rows of backend/reversing_lab/database/repository.py, the worker
-- and its cancellation of backend/reversing_lab/jobs/runner.py, and all their interleavings.
pub mod Record
pub mod Repository
pub mod Runner
pub mod Bounds
pub mod System
pub mod Cancel
pub mod Liveness
mod Tests

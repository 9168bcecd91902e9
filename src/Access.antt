-- ===== src/Access.antt =====
-- Who may make a request: backend/reversing_lab/api/auth.py, backend/reversing_lab/api/rate_limit.py, and
-- the key descriptors of backend/reversing_lab/config.py.
pub mod Keys
pub mod Auth
pub mod Roles
pub mod Limiter
pub mod Window
pub mod Gate
mod Tests

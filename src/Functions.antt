-- ===== src/Functions.antt =====
-- backend/reversing_lab/analysis/functions.py: the recovered functions and the call graph over them.
pub mod Model
pub mod Explore
pub mod Graph
mod Tests

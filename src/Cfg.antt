-- ===== src/Cfg.antt =====
-- The control-flow graph of backend/reversing_lab/disassembler/cfg.py and the classification of
-- instructions of backend/reversing_lab/disassembler/classify.py. The instructions are Capstone's, a
-- parameter throughout.
pub mod Classify
pub mod Collect
pub mod Leaders
pub mod Slice
pub mod Graph
pub mod Reach
mod Tests

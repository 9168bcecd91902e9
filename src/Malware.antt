-- ===== src/Malware.antt =====
-- Static malware triage: backend/reversing_lab/malware.
pub mod Texts
pub mod Model
pub mod Iocs
pub mod Triage
mod Tests

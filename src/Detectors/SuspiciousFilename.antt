-- ===== src/Detectors/SuspiciousFilename.antt =====
-- src/detectors/suspicious_filename.c: the detector of disguised file names. Names are C strings; a
-- pointer into a name is what stands behind it.
pub mod Extensions
pub mod Rules
pub mod OnFile
pub mod Reasons
pub mod Severity
pub mod Outcome
mod Tests

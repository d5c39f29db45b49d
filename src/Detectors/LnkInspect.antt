-- ===== src/Detectors/LnkInspect.antt =====
-- src/detectors/lnk_inspect.c: the inspection of shortcuts.
pub mod Bytes
pub mod Parse
pub mod Safety
pub mod Hostile
pub mod OnFile
pub mod Verdict
mod Tests

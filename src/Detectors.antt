-- ===== src/Detectors.antt =====
-- src/detectors: what inspects the files of a volume.
pub mod Detector
pub mod Autorun
pub mod HashMatch
pub mod LnkInspect
pub mod SignatureList
pub mod SuspiciousFilename
pub mod Registry

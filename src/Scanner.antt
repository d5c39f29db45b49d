-- ===== src/Scanner.antt =====
-- include/usbsentinel/scanner.h and src/scanner/scanner.c: the walk over a volume, and the scan around it.
mod Tests
pub mod Walk
pub mod Steps
pub mod Traversal
pub mod Events
pub mod Shown
pub mod Files
pub mod Report
pub mod Scan
pub mod Checks
pub mod Messages
pub mod Stops
pub mod Outcome
pub mod Program

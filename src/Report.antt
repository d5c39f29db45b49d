-- ===== src/Report.antt =====
-- include/usbsentinel/report.h and src/reporting/report.c: the reports on a scan.
pub mod Csv
pub mod Json
pub mod Text
mod Tests
